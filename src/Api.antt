-- ===== src/Api.antt =====
-- The custom resources: pkg/apis/kdmp/v1alpha1/dataexport.go and volumebackup.go, with the fields
-- of the object's metadata that the controller reads.
use kdmp.Base.{ℕ, Bool, Option, List, Text}
use kdmp.Base.Int.{ℤ}

-- DataExportType. `unset` is "", and `other` any string that is no constant of the package.
pub data DataExportType : Type 0 where
  unset rsync restic kopia : DataExportType
  other : Text → DataExportType

-- DataExportStage.
pub data Stage : Type 0 where
  unset initial snapshot_scheduled snapshot_in_progress snapshot_restore : Stage
  snapshot_restore_in_progress local_snapshot_restore local_snapshot_restore_in_progress : Stage
  transfer_scheduled transfer_in_progress cleanup final : Stage
  other : Text → Stage

-- DataExportStatus.
pub data Status : Type 0 where
  unset initial pending in_progress failed successful : Status
  other : Text → Status

pub record ObjectReference : Type 0 where
  pub api_version : Text
  pub kind : Text
  pub namespace : Text
  pub name : Text

-- What the controller reads of a PersistentVolumeClaim.
pub record Pvc : Type 0 where
  pub name : Text
  pub namespace : Text
  pub phase : Text
  pub storage_class : Text
  pub storage_request : ℕ
  pub request_text : Text
  pub volume_name : Text
  pub annotations : List (Text × Text)

pub record DataExportSpec : Type 0 where
  pub type : DataExportType
  pub snapshot_storage_class : Text
  pub source : ObjectReference
  pub destination : ObjectReference

pub record ExportStatus : Type 0 where
  pub stage : Stage
  pub status : Status
  pub reason : Text
  pub snapshot_id : Text
  pub snapshot_namespace : Text
  pub snapshot_pvc_name : Text
  pub snapshot_pvc_namespace : Text
  pub transfer_id : Text
  pub progress_percentage : ℤ
  pub size : ℕ
  pub volume_snapshot : Text
  pub restore_pvc : Option Pvc
  pub local_snapshot_restore : Bool

-- `deleting` is DeletionTimestamp != nil.
pub record DataExport : Type 0 where
  pub name : Text
  pub namespace : Text
  pub uid : Text
  pub deleting : Bool
  pub finalizers : List Text
  pub annotations : List (Text × Text)
  pub labels : List (Text × Text)
  pub spec : DataExportSpec
  pub status : ExportStatus

-- VolumeBackup. A percentage is a float64 of the executor, F.
pub record VolumeBackup (F : Type 0) : Type 0 where
  pub name : Text
  pub namespace : Text
  pub backup_location : ObjectReference
  pub repository : Text
  pub progress_percentage : F
  pub total_bytes : ℕ
  pub total_bytes_processed : ℕ
  pub snapshot_id : Text
  pub last_known_error : Text
