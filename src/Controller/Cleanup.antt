-- ===== src/Controller/Cleanup.antt =====
-- Removing what a data export has created: Controller.cleanUp and
-- cleanupLocalRestoredSnapshotResources of reconcile.go.
pub mod Cleaned
use kdmp.Base.{
  Bool, true, not, ◌&&◌, some, [], ◌∷◌, Text, codes, Error, errorf, Call, format, Result, ok, err,
  is_empty, if◌then◌else◌, is_not_found,
}
use kdmp.Base.Results.{return, wrap, ◌>>=◌, ◌>>◌}
use kdmp.Api.{DataExport, Pvc}
use kdmp.Services.{Cluster, BackupLocation, Retry, Attempt, done, give_up}
use kdmp.Drivers.{Driver}
use kdmp.Controller.Names.{
  has_snapshot_stage, has_local_restore_stage, get_annotation_value, get_csi_cr_upload_directory,
}
use kdmp.Controller.Secrets.{get_backuplocation_from_secret}
use kdmp.Controller.Snapshot.{get_snapshot_driver_name, backup_object_uid_key, pvc_uid_key}

abbrev pub cert_secret_name : Text
cert_secret_name = codes "tls-s3-cert"

-- `if err != nil && !IsNotFound(err) { return fmt.Errorf(…) }`
unfoldable pub unless_missing : (Error → Error) → Result (Unit {0}) → Result (Unit {0})
unless_missing f (ok _) = ok tt
unless_missing f (err e) = if is_not_found e then ok tt else err (f e)

abbrev pub unless_missing_call :
    {W : Type 0} → (Error → Error) → Call W (Unit {0}) → Call W (Unit {0})
unless_missing_call f call w = let (w', r) = call w in (w', unless_missing f r)

-- `&corev1.PersistentVolumeClaim{}`.
abbrev empty_pvc : Pvc
empty_pvc = record {
  name = [];
  namespace = [];
  phase = [];
  storage_class = [];
  storage_request = 0;
  request_text = [];
  volume_name = [];
  annotations = [];
}

module _ (k : Cluster) (r : Retry) where
  -- One run of the task of cleanupLocalRestoredSnapshotResources, which never asks for another.
  local_cleanup_calls : DataExport → Bool → Text → Call k.World (Unit {0})
  local_cleanup_calls de ignore_pvc driver = do
    wrap (λ e. errorf (format "failed to get snapshot driver for %v: %v" (driver ∷ e.text ∷ [])))
        (k.snapshot_driver driver)
    vb ←
        wrap
          (λ e. errorf (
            format "Error accessing volumebackup %s in namespace %s : %v"
              (de.spec.source.name ∷ de.spec.source.namespace ∷ e.text ∷ [])))
          (k.get_volume_backup de.spec.source.name de.spec.source.namespace)
    location ←
        wrap
          (λ e. errorf (
            format "Error while getting backuplocation %s/%s : %v"
              (de.spec.source.namespace ∷ de.spec.source.name ∷ e.text ∷ [])))
          (k.get_backup_location vb.backup_location.name vb.backup_location.namespace)
    k.clean_up_restored_resources driver location
        (if ignore_pvc then some empty_pvc else de.status.restore_pvc)
        (get_annotation_value de pvc_uid_key) (get_annotation_value de backup_object_uid_key)
        (get_csi_cr_upload_directory (get_annotation_value de pvc_uid_key)) de.namespace

  attempt_of : k.World × Result (Unit {0}) → k.World × Attempt Unit
  attempt_of (w, ok _) = (w, done tt)
  attempt_of (w, err e) = (w, give_up e)

  -- An empty driver name ends the task without an error, whatever the reason for it.
  with_driver_name : DataExport → Bool → k.World × Result Text → k.World × Attempt Unit
  unfolding local_cleanup_calls attempt_of
  with_driver_name de ignore_pvc (w, err _) = (w, done tt)
  with_driver_name de ignore_pvc (w, ok []) = (w, done tt)
  with_driver_name de ignore_pvc (w, ok (c ∷ name)) =
      attempt_of (local_cleanup_calls de ignore_pvc (c ∷ name) w)

  unfoldable pub cleanup_local_restored_snapshot_resources :
      DataExport → Bool → Call k.World (Unit {0})
  unfolding with_driver_name
  cleanup_local_restored_snapshot_resources de ignore_pvc =
      r.do_retry k.World Unit
        (λ w. with_driver_name de ignore_pvc (get_snapshot_driver_name k de w))

  -- Whether the temporary claim is known.
  unfoldable pub has_snapshot_pvc : DataExport → Bool
  has_snapshot_pvc de =
      not (is_empty de.status.snapshot_pvc_name) && not (is_empty de.status.snapshot_pvc_namespace)

  -- The last part of cleanUp: the certificate's secret and the job.
  unfoldable pub delete_job_resources :
      Driver k.World k.Float64 → DataExport → Call k.World (Unit {0})
  delete_job_resources driver de = do
    unless_missing_call
        (λ _. errorf (
          format "failed to delete [%s/%s] secret"
            (de.spec.source.namespace ∷ cert_secret_name ∷ [])))
        (k.delete_secret cert_secret_name de.spec.source.namespace)
    if is_empty de.status.transfer_id
        then return tt
        else unless_missing_call
            (λ e. errorf (format "delete %s job: %s" (de.status.transfer_id ∷ e.text ∷ [])))
            (driver.delete_job de.status.transfer_id)

  -- The older snapshots are removed, then the temporary claim, the certificate's secret and the job.
  delete_located :
      Driver k.World k.Float64 → DataExport → Text → BackupLocation → Call k.World (Unit {0})
  delete_located driver de name location = do
    wrap
        (λ e. errorf (
          format "failed in removing older local snapshots for %s/%s: %v"
            (de.status.snapshot_pvc_namespace ∷ de.status.snapshot_pvc_name ∷ e.text ∷ [])))
        (k.retain_local_snapshots name location de.spec.snapshot_storage_class
          de.status.snapshot_pvc_namespace (get_annotation_value de pvc_uid_key)
          (get_csi_cr_upload_directory (get_annotation_value de pvc_uid_key)))
    unless_missing_call
        (λ e. errorf (
          format "delete %s/%s pvc: %s"
            (de.status.snapshot_pvc_namespace ∷ de.status.snapshot_pvc_name ∷ e.text ∷ [])))
        (k.delete_pvc de.status.snapshot_pvc_name de.status.snapshot_pvc_namespace)
    delete_job_resources driver de

  -- After the backup location was read from the secret.
  located :
      Driver k.World k.Float64 → DataExport → Text → Result BackupLocation → Call k.World (Unit {0})
  unfolding delete_located
  located driver de name (err e) w = (
    w,
    if is_not_found e
        then ok tt
        else err (errorf (format "backuplocation fetch error: %v" (e.text ∷ []))),
  )
  located driver de name (ok location) w = delete_located driver de name location w

  delete_snapshot_pvc : Driver k.World k.Float64 → DataExport → Text → Call k.World (Unit {0})
  unfolding located
  delete_snapshot_pvc driver de name w =
      let (w', z) = get_backuplocation_from_secret k de.name de.spec.source.namespace w in
      located driver de name z w'

  clean_snapshot : Driver k.World k.Float64 → DataExport → Call k.World (Unit {0})
  unfolding delete_snapshot_pvc
  clean_snapshot driver de = do
    name ←
        wrap (λ e. errorf (format "failed to get snapshot driver name: %v" (e.text ∷ [])))
          (get_snapshot_driver_name k de)
    wrap (λ e. errorf (format "failed to get snapshot driver for %v: %v" (name ∷ e.text ∷ [])))
        (k.snapshot_driver name)
    if has_snapshot_pvc de
        then delete_snapshot_pvc driver de name
        else delete_job_resources driver de

  -- cleanUp, at a driver that is not nil. Where the secret of the credentials is missing it ends
  -- without an error and before the claim and the job are deleted.
  unfoldable pub clean_up : Driver k.World k.Float64 → DataExport → Call k.World (Unit {0})
  unfolding clean_snapshot
  clean_up driver de =
      if has_local_restore_stage de
      then (do
        wrap
            (λ e. errorf (
              format
                "failed in cleaning up resources restored for local snapshot restore for dataexport %s/%s: %v"
                (de.namespace ∷ de.name ∷ e.text ∷ [])))
            (cleanup_local_restored_snapshot_resources de true)
        delete_job_resources driver de)
      else if has_snapshot_stage de
      then clean_snapshot driver de
      else delete_job_resources driver de
