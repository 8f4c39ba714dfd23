-- ===== src/Controller/Checks.antt =====
-- The checks of reconcile.go on what a data export refers to.
pub mod Mounts
pub mod Unmounted
use kdmp.Base.{
  ℕ, Bool, true, false, not, ◌&&◌, ◌||◌, Option, none, some, List, [], ◌∷◌, Text, codes, Error,
  errorf, Call, format, Result, ok, err, is_empty, text_eq, ltb, if◌then◌else◌, String,
  is_already_exists,
}
use kdmp.Base.Results.{return, raise, lift_result, wrap, ◌>>=◌, ◌>>◌}
use kdmp.Base.Strings.{join}
use kdmp.Api.{DataExport, ObjectReference, Pvc, VolumeBackup}
use kdmp.Services.{Cluster, Retry, BackupLocation}
use kdmp.Controller.Names.{has_snapshot_stage}
use kdmp.Controller.Refs.{
  check_name_namespace, is_pvc_ref, is_api_version_kind_not_set_ref, is_backup_location_ref,
  is_volume_backup_ref,
}
use kdmp.Controller.Snapshot.{check_backup_location}

-- `%v` of a list of names.
abbrev pub names_text : List Text → Text
names_text names = format "[%s]" (join (codes " ") names ∷ [])

abbrev pub guard : {S : Type 0} → Bool → Text → Call S (Unit {0})
guard true msg s = (s, ok tt)
guard false msg s = (s, err (errorf msg))

module _ (k : Cluster) (r : Retry) where
  -- The polled condition of waitForPVCBound. Beside the world goes `errMsg`.
  poll_pvc : ObjectReference → k.World × Text → (k.World × Text) × Result (Option Pvc)
  poll_pvc ref (w, msg) = elim (k.get_pvc ref.name ref.namespace w).1 [
    | err e ↦ (((k.get_pvc ref.name ref.namespace w).0, msg), err e)
    | ok pvc ↦
        if not (text_eq pvc.phase (codes "Bound"))
        then (
          (
            (k.get_pvc ref.name ref.namespace w).0,
            format "pvc status: expected %s, got %s" (codes "Bound" ∷ pvc.phase ∷ []),
          ),
          ok none,
        )
        else (((k.get_pvc ref.name ref.namespace w).0, msg), ok (some pvc))
  ]

  bound : (k.World × Text) × Result Pvc → k.World × Result Pvc
  bound ((w, msg), ok pvc) = (w, ok pvc)
  bound ((w, msg), err e) = (w, err (errorf (format "%s:%s" (e.text ∷ msg ∷ []))))

  unfoldable pub wait_for_pvc_bound : ObjectReference → Call k.World Pvc
  unfolding poll_pvc bound
  wait_for_pvc_bound ref = do
    lift_result (check_name_namespace ref)
    λ w. bound (r.backoff (k.World × Text) Pvc (poll_pvc ref) (w, []))

  -- The claim, unless pods have it mounted.
  unmounted : Pvc → Call k.World Pvc
  unmounted pvc = do
    pods ←
        wrap (λ e. errorf (format "get mounted pods: %v" (e.text ∷ [])))
          (k.get_pods_using_pvc pvc.name pvc.namespace)
    guard (is_empty pods) (format "mounted to %v pods" (names_text pods ∷ []))
    return pvc

  unfoldable pub check_pvc : ObjectReference → Bool → Call k.World Pvc
  unfolding unmounted
  check_pvc ref check_mounts = do
    lift_result (check_name_namespace ref)
    pvc ← wait_for_pvc_bound ref
    if check_mounts then unmounted pvc else return pvc

  unfoldable pub check_volume_backup : ObjectReference → Call k.World (VolumeBackup k.Float64)
  check_volume_backup ref = do
    lift_result (check_name_namespace ref)
    k.get_volume_backup ref.name ref.namespace

  unfoldable pub check_claims : DataExport → Call k.World Unit
  check_claims de = do
    guard (has_snapshot_stage de || text_eq de.spec.source.namespace de.spec.destination.namespace)
        (format
          "source and destination volume claims should be in the same namespace if no snapshot class is provided"
          [])
    src ←
        wrap (λ e. errorf (format "source pvc: %v" (e.text ∷ [])))
          (check_pvc de.spec.source (not (has_snapshot_stage de)))
    dst ←
        wrap (λ e. errorf (format "destination pvc: %v" (e.text ∷ [])))
          (check_pvc de.spec.destination true)
    guard (not (ltb dst.storage_request src.storage_request)) (
        format "size of the destination pvc (%s) is less than of the source one (%s)"
          (dst.request_text ∷ src.request_text ∷ []))

  -- checkGenericBackup, which checkResticBackup and checkKopiaBackup call.
  unfoldable pub check_generic_backup : DataExport → Call k.World Unit
  check_generic_backup de = do
    guard (is_pvc_ref de.spec.source || is_api_version_kind_not_set_ref de.spec.source)
        (format "source is expected to be PersistentVolumeClaim" [])
    wrap (λ e. errorf (format "source: %s" (e.text ∷ []))) (check_pvc de.spec.source false)
    guard (is_backup_location_ref de.spec.destination)
        (format "source is expected to be Backuplocation" [])
    wrap (λ e. errorf (format "destination: %s" (e.text ∷ [])))
        (check_backup_location k de.spec.destination)
    return tt

  -- checkGenericRestore, which checkResticRestore and checkKopiaRestore call.
  unfoldable pub check_generic_restore : DataExport → Call k.World Unit
  check_generic_restore de = do
    guard (is_volume_backup_ref de.spec.source) (format "source is expected to be VolumeBackup" [])
    wrap (λ e. errorf (format "source: %s" (e.text ∷ []))) (check_volume_backup de.spec.source)
    guard (is_pvc_ref de.spec.destination || is_api_version_kind_not_set_ref de.spec.destination)
        (format "destination is expected to be PersistentVolumeClaim" [])

  -- createPVC of the claim that the data export's status holds.
  created_pvc : Pvc → Result Pvc → Result Pvc
  created_pvc pvc (ok new) = ok new
  created_pvc pvc (err e) =
      if is_already_exists e
      then ok pvc
      else err (errorf (format "failed to create PVC %s: %s" (pvc.name ∷ e.text ∷ [])))

  unfoldable pub create_pvc : Pvc → Call k.World Pvc
  unfolding created_pvc
  create_pvc pvc w = ((k.create_pvc pvc w).0, created_pvc pvc (k.create_pvc pvc w).1)
