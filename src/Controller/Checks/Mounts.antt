-- ===== src/Controller/Checks/Mounts.antt =====
-- checkPVCIgnoringJobMounts of reconcile.go: a destination claim may be mounted by the restore job
-- itself, which an earlier run started.
use kdmp.Base.{
  Bool, true, false, List, [], ◌∷◌, Text, codes, Error, errorf, Call, format, Result, ok, err,
  is_empty, text_eq, if◌then◌else◌,
}
use kdmp.Api.{ObjectReference, Pvc}
use kdmp.Services.{Cluster, Retry, Attempt, done, again, give_up}
use kdmp.Controller.Refs.{check_name_namespace}
use kdmp.Controller.Checks.{wait_for_pvc_bound, names_text}

-- What a step of the task ends in: a value, or an error with the task's `retry`. `checkErr`, the
-- last error that the task has met, is kept beside the world; it begins as nil.
pub data Try (A : Type 0) : Type 0 where
  value : A → Try A
  failed : Bool → Error → Text → Try A

infixl 5 ◌>>=◌ ◌>>◌
abbrev ◌>>=◌ : {W A B : Type 0} → (W → W × Try A) → (A → W → W × Try B) → W → W × Try B
◌>>=◌ m f w = elim (m w).1 [
  | value a ↦ f a (m w).0
  | failed retry e check ↦ ((m w).0, failed retry e check)
]

abbrev ◌>>◌ : {W A B : Type 0} → (W → W × Try A) → (W → W × Try B) → W → W × Try B
m >> n = m >>= λ _. n

abbrev try_of : {A : Type 0} → Bool → (Error → Error) → Result A → Try A
try_of retry f (ok a) = value a
try_of retry f (err e) = failed retry (f e) e.text

-- A call whose error is kept in `checkErr`.
abbrev try : {W A : Type 0} → Bool → (Error → Error) → Call W A → W → W × Try A
try retry f call w = let (w', x) = call w in (w', try_of retry f x)

abbrev name_of : Result (Unit {0}) → Try (Unit {0})
name_of (ok _) = value tt
name_of (err e) = failed true e (codes "<nil>")

member : Text → List Text → Bool
member t [] = false
member t (x ∷ xs) = let rest = member t xs in if text_eq t x then true else rest

module _ (k : Cluster) (r : Retry) where
  belongs : Text → Result (List Text) → Bool
  belongs pod (ok names) = member pod names
  belongs pod (err _) = false

  -- podBelongsToJob.
  unfoldable pub pod_belongs_to_job : Text → Text → Text → k.World → k.World × Bool
  unfolding belongs member
  pod_belongs_to_job pod job namespace w =
      ((k.get_job_pods namespace job w).0, belongs pod (k.get_job_pods namespace job w).1)

  -- The loop over the pods that have the claim mounted, all of which are `pods`.
  mounted : List Text → List Text → Text → Pvc → k.World → k.World × Try Pvc
  mounted pods [] job pvc w =
      let e = errorf (format "mounted to %v pods" (names_text pods ∷ [])) in
      (w, failed false e e.text)
  mounted pods (pod ∷ rest) job pvc w = elim (pod_belongs_to_job pod job pvc.namespace w).1 [
    | true ↦ ((pod_belongs_to_job pod job pvc.namespace w).0, value pvc)
    | false ↦ mounted pods rest job pvc (pod_belongs_to_job pod job pvc.namespace w).0
  ]

  bound_unless : ObjectReference → Pvc → Bool → k.World → k.World × Try Pvc
  bound_unless ref pvc true w = (w, value pvc)
  bound_unless ref pvc false w = try false (λ e. e) (wait_for_pvc_bound k r ref) w

  -- The claim, bound unless its storage class waits for the first consumer.
  usable : ObjectReference → Pvc → k.World → k.World × Try Pvc
  unfolding bound_unless
  usable ref pvc = if is_empty pvc.storage_class then bound_unless ref pvc false else (do
    waits ← try true (λ e. e) (k.waits_for_consumer pvc.storage_class)
    bound_unless ref pvc waits)

  check_mounted : List Text → Text → Pvc → k.World → k.World × Try Pvc
  check_mounted [] job pvc w = (w, value pvc)
  check_mounted (pod ∷ pods) job pvc w = mounted (pod ∷ pods) (pod ∷ pods) job pvc w

  check_steps : ObjectReference → Text → k.World → k.World × Try Pvc
  unfolding usable check_mounted mounted
  check_steps ref job = do
    λ w. (w, name_of (check_name_namespace ref))
    found ← try true (λ e. e) (k.get_pvc ref.name ref.namespace)
    pvc ← usable ref found
    pods ←
        try true (λ e. errorf (format "get mounted pods: %v" (e.text ∷ [])))
          (k.get_pods_using_pvc pvc.name pvc.namespace)
    check_mounted pods job pvc

  attempt_of : k.World × Try Pvc → (k.World × Text) × Attempt Pvc
  attempt_of (w, value pvc) = ((w, codes "<nil>"), done pvc)
  attempt_of (w, failed true e check) = ((w, check), again e)
  attempt_of (w, failed false e check) = ((w, check), give_up e)

  check_task : ObjectReference → Text → k.World × Text → (k.World × Text) × Attempt Pvc
  unfolding check_steps attempt_of
  check_task ref job (w, _) = attempt_of (check_steps ref job w)

  exhausted : ObjectReference → (k.World × Text) × Result Pvc → k.World × Result Pvc
  exhausted ref ((w, check), ok pvc) = (w, ok pvc)
  exhausted ref ((w, check), err _) = (
    w,
    err (
        errorf (
          format "max retries done, failed in checking the PVC status of %v/%v: %v"
            (ref.namespace ∷ ref.name ∷ check ∷ []))),
  )

  unfoldable pub check_pvc_ignoring_job_mounts : ObjectReference → Text → Call k.World Pvc
  unfolding check_task exhausted
  check_pvc_ignoring_job_mounts ref expected_mount_job w =
      exhausted ref
        (r.do_retry (k.World × Text) Pvc (check_task ref expected_mount_job) (w, codes "<nil>"))
