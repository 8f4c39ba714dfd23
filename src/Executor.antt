-- ===== src/Executor.antt =====
-- The executors that a transfer's job runs: pkg/executor. Here are the types of common.go, and what
-- the executors call and the repository does not implement, as parameters.
pub mod Arguments
pub mod Outcomes
pub mod Credentials
pub mod VolumeBackups
pub mod Repositories
pub mod Backup
pub mod Restore
pub mod Delete
pub mod Maintenance
use kdmp.Base.{ℕ, Bool, Option, List, Text, Error, Result, Call}
use kdmp.Base.Int.{ℤ}
use kdmp.Api.{VolumeBackup}
use kdmp.Services.{BackupLocation}
use kdmp.Kopia.{ExecCmd}

pub record S3Config : Type 0 where
  pub endpoint : Text
  pub access_key_id : Text
  pub secret_access_key : Text
  pub region : Text
  pub disable_ssl : Bool

pub record AzureConfig : Type 0 where
  pub storage_account_name : Text
  pub storage_account_key : Text

pub record GoogleConfig : Type 0 where
  pub project_id : Text
  pub account_key : Text

-- Type and the three configurations of a Repository: the type and its configuration are always set
-- together, and the others are nil; `unset` is the type "" with no configuration.
pub data Store : Type 0 where
  s3 : S3Config → Store
  azure : AzureConfig → Store
  google : GoogleConfig → Store
  unset : Store

pub record Repository : Type 0 where
  pub name : Text
  pub path : Text
  pub auth_env : List Text
  pub store : Store
  pub password : Text

-- Status, with a float64 of the executor as an F.
pub record Status (F : Type 0) : Type 0 where
  pub progress_percentage : F
  pub total_bytes_processed : ℕ
  pub total_bytes : ℕ
  pub snapshot_id : Text
  pub done : Bool
  pub last_known_error : Option Error

-- float64: strconv.ParseFloat, whose value counts also where it reports an error, the product with
-- a power of ten, and the conversion to uint64.
pub record Floats (F : Type 0) : Type 0 where
  pub zero : F
  pub hundred : F
  pub parse_float : Text → F
  pub times_power : ℕ → F → F
  pub to_uint : F → ℕ

-- How a process that has ended reports to exec.Cmd's Wait, and what it has written.
pub record Exit : Type 0 where
  pub failure : Option Error
  pub out : Text
  pub err_out : Text

-- BackupSummaryResponse, by the fields that are read.
pub record BackupSummary : Type 0 where
  pub id : Text
  pub total_file_size : ℕ
  pub fatal_error_count : ℤ

-- VolumeBackupDelete, by its name and its status.
pub data DeleteStatus : Type 0 where
  initial progress successful failed : DeleteStatus

pub record VolumeBackupDelete : Type 0 where
  pub name : Text
  pub namespace : Text
  pub status : DeleteStatus
  pub reason : Text

-- RepoMaintenanceStatus, with the time as a text.
pub data MaintenanceResult : Type 0 where
  successful failed : MaintenanceResult

pub record RepoMaintenanceStatus : Type 0 where
  pub last_run_timestamp : Text
  pub status : MaintenanceResult
  pub reason : Text

-- BackupLocationMaintenance, by its name and its status; a nil map is an empty one.
pub record BackupLocationMaintenance : Type 0 where
  pub name : Text
  pub namespace : Text
  pub full_status : List (Text × RepoMaintenanceStatus)
  pub quick_status : List (Text × RepoMaintenanceStatus)

-- The object store is asked with the backup location that GetBucket takes, after the prefix that
-- blob.PrefixedBucket takes. `look` lets time pass until the next look at the process that was
-- started last, and says how it has ended if it has ended by then.
pub record ExecutorServices (W F : Type 0) : Type 1 where
  pub environ : List Text
  pub hostname : W → Result Text
  pub now : W → Text
  pub print_int : ℤ → Text
  pub parse_bool : Text → Result Bool
  pub unmarshal : Text → Result BackupSummary
  pub glob : Text → W → Result (List Text)
  pub read_file : Text → Call W Text
  pub write_file : Text → Text → Call W Unit
  pub start : ExecCmd → Call W Unit
  pub look : W → W × Option Exit
  pub get_volume_backup : Text → Text → Call W (VolumeBackup F)
  -- With the annotations of the new object.
  pub create_volume_backup : List (Text × Text) → VolumeBackup F → Call W Unit
  pub update_volume_backup : VolumeBackup F → Call W Unit
  pub get_volume_backup_delete : Text → Text → Call W VolumeBackupDelete
  pub update_volume_backup_delete : VolumeBackupDelete → Call W Unit
  pub get_maintenance : Text → Text → Call W BackupLocationMaintenance
  pub update_maintenance : BackupLocationMaintenance → Call W Unit
  pub get_backup_location : Text → Text → Call W BackupLocation
  pub get_bucket : BackupLocation → Call W Unit
  pub blob_exists : BackupLocation → Text → Text → Call W Bool
  -- What the iterator over the keys below the prefix gives, each up to the next slash: the keys, and
  -- the error that ends them before the last.
  pub list_blobs : BackupLocation → Text → W → W × (List Text × Option Error)

-- The flags of the command, which the source keeps in variables of its packages.
pub record Flags : Type 0 where
  pub volume_backup_name : Text
  pub namespace : Text
  pub kopia_repo : Text
  pub compression : Text
  pub backup_location_name : Text
  pub backup_location_namespace : Text
