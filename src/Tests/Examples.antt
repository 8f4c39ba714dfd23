-- ===== src/Tests/Examples.antt =====
-- Each theorem at a concrete input.
use kdmp.Base.{
  ℕ, true, false, none, some, [], ◌∷◌, Text, codes, ok, ◌≡◌, ◌⊎◌, refl, text_eq, length, ◌||◌, ◌≤◌,
  ◌+◌,
}
use kdmp.Base.Int.{pos}
use kdmp.Base.Strings.{split}
use kdmp.Api.{DataExport, DataExportType, ObjectReference, Stage, Status}
use kdmp.Services.{BackupLocation, LocationType}
use kdmp.Drivers.{Driver, JobState, JobConditionType}
use kdmp.Drivers.Name
use kdmp.Tests.Services.{memory, memory_laws, twice, twice_laws, outage, held}
use kdmp.Controller.Flow.{to_stage}
use kdmp.Controller.Update.{update_status}
use kdmp.Controller.Update.Stored.{IsPut, update_status-IsPut}
use kdmp.Controller.Sync.{sync}
use kdmp.Controller.Phases.Steps.{IsStepped, sync-IsStepped}
use kdmp.Controller.Refs.{
  direction, get_driver_type, is_pvc_ref, is_backup_location_ref, is_volume_backup_ref,
  is_api_version_kind_not_set_ref,
}
use kdmp.Controller.Refs.Laws.{get_driver_type_kopia}
use kdmp.Controller.Names.{
  has_snapshot_stage, get_repo_pvc_name, to_snapshot_pvc_name, to_snap_name, truncated_pvc_name,
  head_text,
}
use kdmp.Controller.Names.Laws.{length-to_snapshot_pvc_name, get_repo_pvc_name-to_snapshot_pvc_name}
use kdmp.Controller.Secrets.{s3_contents, credential_contents, location_of_contents}
use kdmp.Controller.Secrets.Laws.{SameCredentials, location_of_contents-credential_contents}

abbrev pub app : Text
app = codes "app"

abbrev pub claim : ObjectReference
claim = record {
  api_version = codes "v1";
  kind = codes "PersistentVolumeClaim";
  namespace = app;
  name = codes "db-data";
}

abbrev pub location_ref : ObjectReference
location_ref = record {
  api_version = codes "stork.libopenstorage.org/v1alpha1";
  kind = codes "BackupLocation";
  namespace = app;
  name = codes "store";
}

-- A kopia backup of a claim, in a stage.
abbrev pub export_at : Stage → Status → ObjectReference → DataExport
export_at stage status to = record {
  name = codes "nightly";
  namespace = app;
  uid = codes "6f1c-22";
  deleting = false;
  finalizers = codes "kdmp.portworx.com/finalizer-cleanup" ∷ [];
  annotations = [];
  labels = [];
  spec = record {
    type = DataExportType.kopia;
    snapshot_storage_class = codes "csi";
    source = claim;
    destination = to;
  };
  status = record {
    stage = stage;
    status = status;
    reason = [];
    snapshot_id = [];
    snapshot_namespace = [];
    snapshot_pvc_name = [];
    snapshot_pvc_namespace = [];
    transfer_id = codes "app/job";
    progress_percentage = pos 0;
    size = 0;
    volume_snapshot = [];
    restore_pvc = none;
    local_snapshot_restore = false;
  };
}

abbrev pub idle : Driver Unit ℕ
idle = record {
  name = Name.kopia_backup;
  start_job = λ opts w. (w, ok (codes "app/job"));
  delete_job = λ id w. (w, ok tt);
  job_status = λ id w. (
    w,
    ok (record {
      progress_percents = 100;
      state = JobState.completed;
      reason = [];
      status = JobConditionType.complete;
    }),
  );
}

-- The export's backup is done, and its resources are removed.
sync-IsStepped_example :
    IsStepped memory
      (codes "nightly")
      app
      (memory_laws (codes "nightly") app)
      (export_at Stage.cleanup Status.successful location_ref)
      (sync outage memory twice
        ((Name.kopia_backup, idle) ∷ [])
        (export_at Stage.cleanup Status.successful location_ref)
        (some (export_at Stage.cleanup Status.successful location_ref), tt)).0.0
unfolding held text_eq
sync-IsStepped_example =
    sync-IsStepped outage memory twice (codes "nightly") app (memory_laws (codes "nightly") app)
      twice_laws ((Name.kopia_backup, idle) ∷ [])
      (export_at Stage.cleanup Status.successful location_ref)
      (some (export_at Stage.cleanup Status.successful location_ref)) tt refl refl

update_status-IsPut_example :
    IsPut memory
      (codes "nightly")
      app
      (memory_laws (codes "nightly") app)
      (to_stage Stage.final Status.failed [])
      (export_at Stage.cleanup Status.successful location_ref)
      (update_status memory twice
        (export_at Stage.initial Status.initial location_ref)
        (to_stage Stage.final Status.failed [])
        (some (export_at Stage.cleanup Status.successful location_ref)))
unfolding held text_eq
update_status-IsPut_example =
    update_status-IsPut memory twice (codes "nightly") app (memory_laws (codes "nightly") app)
      twice_laws (to_stage Stage.final Status.failed [])
      (export_at Stage.cleanup Status.successful location_ref)
      (export_at Stage.initial Status.initial location_ref)
      (some (export_at Stage.cleanup Status.successful location_ref)) refl refl refl refl

abbrev s3_location : BackupLocation
s3_location = record {
  name = codes "store";
  namespace = app;
  type = LocationType.s3;
  path = codes "bucket";
  repository_password = [];
  endpoint = codes "s3.local";
  access_key_id = codes "key";
  secret_access_key = codes "secret";
  region = codes "eu";
  disable_ssl = true;
  storage_account_name = [];
  storage_account_key = [];
  project_id = [];
  account_key = [];
}

length-to_snapshot_pvc_name_example :
    (length (to_snapshot_pvc_name (codes "db-data") (codes "6f1c-22"))
      ≤ 248 + length (head_text (split b'-' (codes "6f1c-22"))))
    × (length (to_snap_name (codes "db-data") (codes "6f1c-22"))
        ≤ 248 + length (head_text (split b'-' (codes "6f1c-22"))))
length-to_snapshot_pvc_name_example =
    length-to_snapshot_pvc_name (codes "db-data") (codes "6f1c-22")

get_repo_pvc_name-to_snapshot_pvc_name_example :
    get_repo_pvc_name
      (export_at Stage.initial Status.initial location_ref)
      (to_snapshot_pvc_name (codes "db-data") (codes "6f1c-22"))
    ≡ truncated_pvc_name (codes "db-data")
unfolding has_snapshot_stage
get_repo_pvc_name-to_snapshot_pvc_name_example =
    get_repo_pvc_name-to_snapshot_pvc_name (export_at Stage.initial Status.initial location_ref)
      (codes "db-data") refl

get_driver_type_kopia_example :
    ((Name.kopia_backup ≡ Name.kopia_backup)
      × ((is_pvc_ref claim || is_api_version_kind_not_set_ref claim) ≡ true)
      × (is_backup_location_ref location_ref ≡ true))
    ⊎ ((Name.kopia_backup ≡ Name.kopia_restore)
        × (is_volume_backup_ref claim ≡ true)
        × ((is_pvc_ref location_ref || is_api_version_kind_not_set_ref location_ref) ≡ true))
unfolding get_driver_type is_pvc_ref is_backup_location_ref is_volume_backup_ref
    is_api_version_kind_not_set_ref text_eq direction
get_driver_type_kopia_example =
    get_driver_type_kopia (export_at Stage.initial Status.initial location_ref) Name.kopia_backup
      refl refl

location_of_contents-credential_contents_example :
    (location_of_contents (codes "store") app (s3_contents s3_location)).type ≡ LocationType.s3
    × ((location_of_contents (codes "store") app (s3_contents s3_location)).path ≡ codes "bucket")
    × SameCredentials LocationType.s3
        (location_of_contents (codes "store") app (s3_contents s3_location))
        s3_location
unfolding credential_contents
location_of_contents-credential_contents_example =
    location_of_contents-credential_contents s3_location (codes "store") app
      (s3_contents s3_location) refl
