-- ===== src/Controller/LocalRestore.antt =====
-- The stages of reconcile.go that restore from a local snapshot, and fall back to the object store.
use kdmp.Base.{Bool, true, false, none, some, Option, [], ◌∷◌, Text, format}
use kdmp.Api.{DataExport, Pvc, Stage, Status}
use kdmp.Services.{Cluster, Retry}
use kdmp.Controller.Flow.{
  to_stage, to_status, Verdict, write, crash, fail_with, Act, Exit, attempt, finish, pure, ◌>>=◌,
  ◌>>◌,
}
use kdmp.Controller.Names.{get_annotation_value, get_csi_cr_upload_directory}
use kdmp.Controller.Snapshot.{
  get_snapshot_driver_name, backup_object_uid_key, pvc_uid_key, not_ready, unless_ready, next_stage,
}
use kdmp.Controller.Cleanup.{cleanup_local_restored_snapshot_resources}

module _ (k : Cluster) (r : Retry) where
  abbrev local_driver_of : DataExport → Act k.World Text
  local_driver_of de = do
    name ←
        attempt (get_snapshot_driver_name k de)
          (λ e. fail_with de (format "failed to get snapshot driver name: %v" (e.text ∷ [])))
    attempt (k.snapshot_driver name)
        (λ e. fail_with de (format "failed to get snapshot driver for %v: %v" (name ∷ e.text ∷ [])))
    pure name

  -- The resources of the failed restore are removed (an error is only logged), and the restore goes
  -- on from the object store.
  fall_back : Text → DataExport → Act k.World Verdict
  fall_back reason de w = (
    (cleanup_local_restored_snapshot_resources k r de false w).0,
    Exit.stop (write false de (to_stage Stage.transfer_scheduled Status.initial reason)),
  )

  started : DataExport → Bool → Act k.World Verdict
  started de true w = (
    w,
    Exit.stop (
        write true de (
          to_status Status.successful (
            format "Started restore from local snapshot for volumebackup %s in namespace %s"
              (de.spec.source.name ∷ de.spec.source.namespace ∷ [])))),
  )
  started de false w = (
    w,
    Exit.stop (
        fail_with de (
          format
            "Restoring from local snapshot with volumebackup %s in namespace %s could not be done"
            (de.spec.source.name ∷ de.spec.source.namespace ∷ []))),
  )

  unfoldable pub stage_local_snapshot_restore : Status → DataExport → Act k.World Verdict
  unfolding fall_back started
  stage_local_snapshot_restore Status.successful de =
      finish (next_stage Stage.local_snapshot_restore_in_progress de)
  stage_local_snapshot_restore Status.failed de =
      fall_back
        (format
          "switching to restore from objectstore bucket as restoring from local snapshot did not happen"
          [])
        de
  stage_local_snapshot_restore _ de = do
    driver ← local_driver_of de
    vb ← attempt (k.get_volume_backup de.spec.source.name de.spec.source.namespace) (λ e.
        fail_with de (
          format "Error accessing volumebackup %s in namespace %s : %v"
            (de.spec.source.name ∷ de.spec.source.namespace ∷ e.text ∷ [])))
    location ←
        attempt (k.get_backup_location vb.backup_location.name vb.backup_location.namespace) (λ e.
          fail_with de (
            format "Error while getting backuplocation %s/%s : %v"
              (de.spec.source.namespace ∷ de.spec.source.name ∷ e.text ∷ [])))
    status ←
        attempt
          (k.restore_from_local_snapshot driver location de.status.restore_pvc
            (get_annotation_value de pvc_uid_key) (get_annotation_value de backup_object_uid_key)
            (get_csi_cr_upload_directory (get_annotation_value de pvc_uid_key)) de.namespace)
          (λ e. fail_with de (
            format
              "Error while restoring from local snapshot with volumebackup %s in namespace %s : %v"
              (de.spec.source.name ∷ de.spec.source.namespace ∷ e.text ∷ [])))
    started de status

  -- The claim to restore is a pointer, which is not tested for nil.
  restore_pvc_of : Option Pvc → Act k.World Pvc
  restore_pvc_of (some pvc) = pure pvc
  restore_pvc_of none = finish crash

  unfoldable pub stage_local_snapshot_restore_in_progress :
      Status → DataExport → Act k.World Verdict
  unfolding fall_back restore_pvc_of
  stage_local_snapshot_restore_in_progress Status.successful de =
      finish (write true de (to_stage Stage.cleanup Status.unset []))
  stage_local_snapshot_restore_in_progress Status.failed de = fall_back [] de
  stage_local_snapshot_restore_in_progress _ de = do
    driver ← local_driver_of de
    pvc ← restore_pvc_of de.status.restore_pvc
    info ←
        attempt (k.restore_status driver pvc.name de.namespace)
          (λ e. fail_with de (format "failed to get a snapshot restore status: %s" (e.text ∷ [])))
    unless_ready (not_ready de info)
    finish (
        write true de
          (record (to_status Status.successful (
            format
              "Volume restore from local snapshot for volumebackup %s in namespace %s is successful"
              (de.spec.source.name ∷ de.spec.source.namespace ∷ []))) { size = info.size }))
