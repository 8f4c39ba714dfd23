-- ===== src/Controller/Checks/Unmounted.antt =====
-- What a claim that checkPVC accepts is like.
use kdmp.Base.{
  true, some, [], Text, codes, Result, ok, err, ◌≡◌, inl, inr, subst, arith, text_eq, Result-cases,
}
use kdmp.Base.Results.{lift_result, bind_ok, ◌>>=◌}
use kdmp.Api.{ObjectReference, Pvc}
use kdmp.Services.{Cluster, Retry, BackoffLaws}
use kdmp.Controller.Refs.{check_name_namespace}
use kdmp.Controller.Checks.{poll_pvc, bound, wait_for_pvc_bound, unmounted, check_pvc}

poll_pvc_lem :
    (k : Cluster) (r : Retry) (ref : ObjectReference) (w w' : k.World) (m m' : Text) (pvc : Pvc)
    → poll_pvc k r ref (w, m) ≡ ((w', m'), ok (some pvc))
    → (k.get_pvc ref.name ref.namespace w ≡ (w', ok pvc))
      × (text_eq pvc.phase (codes "Bound") ≡ true)
unfolding poll_pvc
poll_pvc_lem k r ref w w' m m' pvc h = ground arith

unmounted_lem :
    (k : Cluster) (r : Retry) (p pvc : Pvc) (w w' : k.World)
    → unmounted k r p w ≡ (w', ok pvc)
    → (p ≡ pvc) × (k.get_pods_using_pvc p.name p.namespace w ≡ (w', ok []))
unfolding unmounted
unmounted_lem k r p pvc w w' h = ground arith

bound_lem :
    (k : Cluster) (r : Retry) (z : (k.World × Text) × Result Pvc) (w' : k.World) (pvc : Pvc)
    → bound k r z ≡ (w', ok pvc)
    → (m : Text) × (z ≡ ((w', m), ok pvc))
unfolding bound
bound_lem k r ((w, m), ok p) w' pvc h = (m, ground arith)
bound_lem k r ((w, m), err e) w' pvc h = ground arith

-- The claim was read as Bound in the last run of the poll.
abbrev pub WasBound : (k : Cluster) → ObjectReference → k.World → Pvc → Type 0
WasBound k ref w' pvc =
    (w : k.World) × (k.get_pvc ref.name ref.namespace w ≡ (w', ok pvc))
    × (text_eq pvc.phase (codes "Bound") ≡ true)

polled :
    (k : Cluster) (r : Retry) (laws : BackoffLaws r) (ref : ObjectReference) (w w' : k.World)
    (pvc : Pvc)
    → bound k r (r.backoff (k.World × Text) Pvc (poll_pvc k r ref) (w, [])) ≡ (w', ok pvc)
    → WasBound k ref w' pvc
polled k r laws ref w w' pvc h =
    let (m, g) =
      bound_lem k r (r.backoff (k.World × Text) Pvc (poll_pvc k r ref) (w, [])) w' pvc h in
    let ((v, m'), q) =
      laws.last_run (k.World × Text) Pvc (poll_pvc k r ref) (w, []) (w', m) pvc g in
    let (read, is_bound) = poll_pvc_lem k r ref v w' m' m pvc q in (v, read, is_bound)

wait_for_pvc_bound-WasBound :
    (k : Cluster) (r : Retry) (laws : BackoffLaws r) (ref : ObjectReference) (w w' : k.World)
    (pvc : Pvc)
    → wait_for_pvc_bound k r ref w ≡ (w', ok pvc)
    → WasBound k ref w' pvc
unfolding wait_for_pvc_bound
wait_for_pvc_bound-WasBound k r laws ref w w' pvc h =
    elim (Result-cases (check_name_namespace ref)) [
      | inl (t, e) ↦ polled k r laws ref w w' pvc (ground arith)
      | inr (e, g) ↦ ground arith
    ]

-- A claim that checkPVC accepts with the check for mounts was read as Bound, and after that no pod
-- was found that uses it.
pub check_pvc-get_pods_using_pvc :
    (k : Cluster) (r : Retry) (laws : BackoffLaws r) (ref : ObjectReference) (w w' : k.World)
    (pvc : Pvc)
    → check_pvc k r ref true w ≡ (w', ok pvc)
    → (v : k.World) × WasBound k ref v pvc
      × (k.get_pods_using_pvc pvc.name pvc.namespace v ≡ (w', ok []))
unfolding check_pvc
check_pvc-get_pods_using_pvc k r laws ref w w' pvc h =
    let (w₁, t, p, g) =
      bind_ok (lift_result (check_name_namespace ref))
        (λ _. wait_for_pvc_bound k r ref >>= unmounted k r) w w' pvc h in
    let (w₂, found, q, g') = bind_ok (wait_for_pvc_bound k r ref) (unmounted k r) w₁ w' pvc g in
    let (e, used) = unmounted_lem k r found pvc w₂ w' g' in
    (
      w₂,
      subst (WasBound k ref w₂) e (wait_for_pvc_bound-WasBound k r laws ref w₁ w₂ found q),
      subst (λ c. k.get_pods_using_pvc c.name c.namespace w₂ ≡ (w', ok [])) e used,
    )
