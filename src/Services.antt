-- ===== src/Services.antt =====
-- What the controller calls and the repository does not implement, as parameters: the client for
-- DataExport objects (controller-runtime), the Kubernetes, Stork and snapshotter services, the
-- retry helpers, and the data-transfer drivers behind pkg/drivers/drivers.go's Interface.
mod Waits
mod Objects
pub use Waits.*
pub use Objects.*
use kdmp.Base.{ℕ, Bool, Option, List, Text, Error, Result, Call}
use kdmp.Base.Int.{ℤ}
use kdmp.Api.{DataExport, Pvc, VolumeBackup}

pub record PersistentVolume : Type 0 where
  pub name : Text
  pub annotations : List (Text × Text)

-- storkapi.BackupLocationItem, flat: the credentials of the three kinds of store.
pub data LocationType : Type 0 where
  s3 azure google : LocationType
  other : Text → LocationType

pub record BackupLocation : Type 0 where
  pub name : Text
  pub namespace : Text
  pub type : LocationType
  pub path : Text
  pub repository_password : Text
  pub endpoint : Text
  pub access_key_id : Text
  pub secret_access_key : Text
  pub region : Text
  pub disable_ssl : Bool
  pub storage_account_name : Text
  pub storage_account_key : Text
  pub project_id : Text
  pub account_key : Text

pub record Secret : Type 0 where
  pub name : Text
  pub namespace : Text
  pub labels : List (Text × Text)
  pub annotations : List (Text × Text)
  pub contents : List (Text × Text)

-- snapshotter.SnapshotInfo and RestoreInfo; `created` is the creation time of the VolumeSnapshot
-- in seconds, in decimal.
pub data SnapshotStatus : Type 0 where
  ready failed : SnapshotStatus
  other : Text → SnapshotStatus

pub record SnapshotInfo : Type 0 where
  pub status : SnapshotStatus
  pub reason : Text
  pub size : ℕ
  pub created : Text
  pub vs_name : Text
  pub vs_namespace : Text

pub record SnapshotRequest : Type 0 where
  pub name : Text
  pub pvc_name : Text
  pub pvc_namespace : Text
  pub snapshot_class_name : Text
  pub annotations : List (Text × Text)
  pub labels : List (Text × Text)

-- Each service takes the world as it is and leaves another. A snapshot driver is meant by its name.
pub record Cluster : Type 1 where
  pub World : Type 0
  pub Float64 : Type 0
  pub to_int : Float64 → ℤ
  pub is_hundred : Float64 → Bool
  pub getenv : Text → World → Text
  pub read_file : Text → Call World Text
  pub decode_backup_location : Text → Result BackupLocation
  pub get_pvc : Text → Text → Call World Pvc
  pub create_pvc : Pvc → Call World Pvc
  pub delete_pvc : Text → Text → Call World Unit
  pub get_pv : Text → Call World PersistentVolume
  pub update_pv : PersistentVolume → Call World PersistentVolume
  pub get_pods_using_pvc : Text → Text → Call World (List Text)
  pub get_job_pods : Text → Text → Call World (List Text)
  pub waits_for_consumer : Text → Call World Bool
  pub get_config_map : Text → Text → Call World (List (Text × Text))
  pub get_secret : Text → Text → Call World (List (Text × Text))
  pub create_secret : Secret → Call World Unit
  pub delete_secret : Text → Text → Call World Unit
  pub get_backup_location : Text → Text → Call World BackupLocation
  pub get_volume_backup : Text → Text → Call World (VolumeBackup Float64)
  pub snapshot_client : Call World Unit
  pub get_snapshot_class : Text → Call World Unit
  pub snapshot_driver : Text → Call World Unit
  pub create_snapshot : Text → SnapshotRequest → Call World (Text × Text)
  pub snapshot_status : Text → Text → Text → Call World SnapshotInfo
  pub upload_snapshot_objects :
      Text → BackupLocation → List SnapshotInfo → Text → Text → Call World Unit
  pub restore_volume_claim : Text → Text → Text → Pvc → Call World Pvc
  pub restore_status : Text → Text → Text → Call World SnapshotInfo
  pub restore_from_local_snapshot :
      Text → BackupLocation → Option Pvc → Text → Text → Text → Text → Call World Bool
  pub clean_up_restored_resources :
      Text → BackupLocation → Option Pvc → Text → Text → Text → Text → Call World Unit
  pub retain_local_snapshots : Text → BackupLocation → Text → Text → Text → Text → Call World Unit
