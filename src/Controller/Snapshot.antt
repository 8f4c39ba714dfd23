-- ===== src/Controller/Snapshot.antt =====
-- The snapshot stages of reconcile.go: a snapshot of the source claim is taken, its objects are
-- uploaded, and a temporary claim is restored from it, from which the data is then copied.
mod Calls
pub use Calls.*
unfoldable pub use Calls.{get_snapshot_driver_name}
use kdmp.Base.Results
use kdmp.Controller.Refs.{check_name_namespace}
use kdmp.Base.{
  Bool, true, false, none, Option, ok, err, some, List, [], ◌∷◌, Text, codes, Error, errorf, Call,
  format,
}
use kdmp.Base.Strings.{insert_text}
use kdmp.Api.{DataExport, ObjectReference, Pvc, Stage, Status}
use kdmp.Services.{Cluster, SnapshotInfo, SnapshotRequest, SnapshotStatus, BackupLocation}
use kdmp.Controller.Flow.{
  Exit, no_change, to_stage, to_status, Verdict, write, quit, fail_with, Act, attempt, finish, pure,
  ◌>>=◌, ◌>>◌,
}
use kdmp.Controller.Names.{
  to_snap_name, to_snapshot_pvc_name, trim_label, get_annotation_value, get_vs_file_name,
  get_csi_cr_upload_directory,
}

-- `return true, c.updateStatus(dataExport, updateDataExportDetail{stage: next, status: Initial})`.
abbrev pub next_stage : Stage → DataExport → Verdict
next_stage s de = write true de (to_stage s Status.initial [])

abbrev pub no_driver_name : Error → Verdict
no_driver_name e =
    quit false (some (errorf (format "failed to get snapshot driver name: %v" (e.text ∷ []))))

abbrev pub no_driver : Text → Error → Verdict
no_driver name e =
    quit false
      (some (errorf (format "failed to get snapshot driver for %v: %v" (name ∷ e.text ∷ []))))

abbrev pub backup_object_uid_key : Text
backup_object_uid_key = codes "kdmp.portworx.com/backupobject-uid"

abbrev pub pvc_uid_key : Text
pvc_uid_key = codes "kdmp.portworx.com/pvc-uid"

abbrev pub pvc_name_key : Text
pvc_name_key = codes "kdmp.portworx.com/pvc-name"

-- The request that stageSnapshotScheduled builds.
unfoldable pub snapshot_request : DataExport → SnapshotRequest
snapshot_request de = record {
  name = to_snap_name de.spec.source.name de.uid;
  pvc_name = de.spec.source.name;
  pvc_namespace = de.spec.source.namespace;
  snapshot_class_name = de.spec.snapshot_storage_class;
  annotations =
      (data_export_uid_annotation, de.uid)
      ∷ (data_export_name_annotation, trim_label de.name)
      ∷ (backup_object_uid_key, get_annotation_value de backup_object_uid_key)
      ∷ (pvc_uid_key, get_annotation_value de pvc_uid_key)
      ∷ [];
  labels = (pvc_name_key, de.spec.source.name) ∷ [];
}

-- The answer to a snapshot's or a restore's status: `none` for one that is ready.
unfoldable pub not_ready : DataExport → SnapshotInfo → Option Verdict
not_ready de info = elim info.status [
  | SnapshotStatus.failed ↦ some (fail_with de info.reason)
  | SnapshotStatus.ready ↦ none
  | SnapshotStatus.other _ ↦ some (write false de (to_status Status.in_progress info.reason))
]

module _ {W : Type 0} where
  abbrev pub unless_ready : Option Verdict → Act W (Unit {0})
  unless_ready none w = (w, Exit.go tt)
  unless_ready (some v) w = (w, Exit.stop v)

-- checkBackupLocation.
unfoldable pub check_backup_location : (k : Cluster) → ObjectReference → Call k.World BackupLocation
check_backup_location k r =
    Results.◌>>=◌ (Results.lift_result (check_name_namespace r))
      (λ _. k.get_backup_location r.name r.namespace)

module _ (k : Cluster) where
  -- The two calls with which the stages begin.
  abbrev snapshot_driver_of : DataExport → Act k.World Text
  snapshot_driver_of de = do
    name ← attempt (get_snapshot_driver_name k de) no_driver_name
    attempt (k.snapshot_driver name) (no_driver name)
    pure name

  unfoldable pub stage_snapshot_scheduled : Status → DataExport → Act k.World Verdict
  stage_snapshot_scheduled Status.successful de = finish (next_stage Stage.snapshot_in_progress de)
  stage_snapshot_scheduled _ de = do
    driver ← snapshot_driver_of de
    made ←
        attempt (k.create_snapshot driver (snapshot_request de))
          (λ e. fail_with de (format "failed to create a snapshot: %s" (e.text ∷ [])))
    finish (
        write true de (record (to_status Status.successful []) {
          snapshot_id = made.0;
          snapshot_namespace = made.1;
          volume_snapshot = to_snap_name de.spec.source.name de.uid;
        }))

  unfoldable pub stage_snapshot_in_progress : Status → DataExport → Act k.World Verdict
  stage_snapshot_in_progress Status.successful de = finish (next_stage Stage.snapshot_restore de)
  stage_snapshot_in_progress _ de = do
    driver ← snapshot_driver_of de
    info ←
        attempt (k.snapshot_status driver de.status.snapshot_id de.spec.source.namespace)
          (λ e. fail_with de (format "failed to get a snapshot status: %s" (e.text ∷ [])))
    unless_ready (not_ready de info)
    location ← attempt (check_backup_location k de.spec.destination) (λ e.
        fail_with de
          (format "backuplocation fetch error for %s: %v" (de.spec.destination.name ∷ e.text ∷ [])))
    attempt
        (k.upload_snapshot_objects driver location (info ∷ [])
          (get_csi_cr_upload_directory (get_annotation_value de pvc_uid_key))
          (get_vs_file_name (get_annotation_value de backup_object_uid_key) info.created))
        (λ e. fail_with de (
          format "uploading snapshot objects for pvc %s/%s failed with error : %v"
            (info.vs_namespace ∷ info.vs_name ∷ e.text ∷ [])))
    finish (write true de (to_status Status.successful []))

  unfoldable pub stage_snapshot_restore : Status → DataExport → Act k.World Verdict
  stage_snapshot_restore Status.successful de =
      finish (next_stage Stage.snapshot_restore_in_progress de)
  stage_snapshot_restore _ de = do
    driver ← snapshot_driver_of de
    pvc ←
        attempt (restore_snapshot k driver de)
          (λ e. fail_with de (format "failed to restore a snapshot: %s" (e.text ∷ [])))
    finish (
        write true
          (record de {
            status = record de.status {
              snapshot_pvc_name = pvc.name;
              snapshot_pvc_namespace = pvc.namespace;
            };
          })
          (record (to_status Status.successful []) {
            snapshot_pvc_name = pvc.name;
            snapshot_pvc_namespace = pvc.namespace;
          }))

  -- The volume of the temporary claim is marked to be skipped; errors are only logged. A nil map of
  -- annotations, at which the source panics, counts as an empty one.
  mark_volume : Pvc → k.World → k.World
  mark_volume pvc w = elim (k.get_pv pvc.volume_name w).1 [
    | err _ ↦ (k.get_pv pvc.volume_name w).0
    | ok pv ↦
        (k.update_pv
          (record pv {
            annotations = insert_text skip_resource_annotation (codes "true") pv.annotations;
          })
          (k.get_pv pvc.volume_name w).0).0
  ]

  restored : Status → DataExport → Text → Act k.World Verdict
  unfolding mark_volume
  restored Status.successful de driver = finish (next_stage Stage.transfer_scheduled de)
  restored _ de driver = do
    let src = de.spec.source
    src_pvc ←
        attempt (k.get_pvc src.name src.namespace)
          (λ e. fail_with de (format "failed to get restore pvc %v: %v" (src.name ∷ e.text ∷ [])))
    info ←
        attempt
          (k.restore_status driver (to_snapshot_pvc_name src_pvc.name de.uid) src_pvc.namespace)
          (λ e. fail_with de (format "failed to get a snapshot restore status: %s" (e.text ∷ [])))
    unless_ready (not_ready de info)
    inter_pvc ←
        attempt (k.get_pvc (to_snapshot_pvc_name src_pvc.name de.uid) src_pvc.namespace)
          (λ e. fail_with de (format "failed to get restore pvc %v: %v" (src.name ∷ e.text ∷ [])))
    λ w. (
      mark_volume inter_pvc w,
      Exit.stop (write true de (to_status Status.successful info.reason)),
    )

  unfoldable pub stage_snapshot_restore_in_progress : Status → DataExport → Act k.World Verdict
  unfolding restored
  stage_snapshot_restore_in_progress status de = do
    driver ← snapshot_driver_of de
    restored status de driver
