-- ===== src/Drivers/KopiaRestore.antt =====
-- The driver of kopia restores: pkg/drivers/kopiarestore/kopiarestore.go.
use kdmp.Base.{
  Bool, not, List, [], ◌∷◌, Text, codes, Error, errorf, Result, ok, err, Call, format, is_empty,
  is_not_found, is_already_exists, if◌then◌else◌, out_of_job_resources,
}
use kdmp.Base.Results.{return, raise, wrap, lift_result, ◌>>=◌, ◌>>◌}
use kdmp.Base.Strings.{insert_text}
use kdmp.Api.{VolumeBackup}
use kdmp.Drivers.{Driver, JobStatus, apply_options}
use kdmp.Drivers.Name
use kdmp.Drivers.Options.{JobOpts, JobOption, no_opts}
use kdmp.Drivers.KopiaJob.{
  cred_mount, data_mount, cred_volume, data_volume, command_line, driver_status, executor_pod,
  executor_job, node_error, with_id, bad_id, job_failed_text,
}
use kdmp.Services.{Retry}
use kdmp.Jobs.{namespaced_name, is_job_failed, is_job_completed}
use kdmp.Jobs.Batch.{BatchServices, Job, PolicyRule, VolumeSource}
use kdmp.Jobs.Config.{kopia_resource_requirements, setting}
use kdmp.Jobs.State.{is_job_pending, job_node_exists, first_condition}
use kdmp.Jobs.Accounts.{setup_service_account, clean_service_account, unless_call}
use kdmp.JobRateLimit.{driver_name_label, can_job_be_scheduled}

unfoldable pub add_job_labels : List (Text × Text) → List (Text × Text)
add_job_labels labels = insert_text driver_name_label Name.kopia_restore labels

abbrev pub role_for : List PolicyRule
role_for =
    record {
      api_groups = codes "stork.libopenstorage.org" ∷ [];
      resources = codes "backuplocations" ∷ [];
      resource_names = [];
      verbs = codes "get" ∷ codes "list" ∷ [];
    }
    ∷ record {
      api_groups = codes "kdmp.portworx.com" ∷ [];
      resources = codes "volumebackups" ∷ [];
      resource_names = [];
      verbs = codes "*" ∷ [];
    }
    ∷ []

unfoldable pub restore_args : {F : Type 0} → JobOpts → VolumeBackup F → List Text
restore_args o vb =
    codes "/kopiaexecutor"
    ∷ codes "restore"
    ∷ codes "--volume-backup-name"
    ∷ o.volume_backup_name
    ∷ codes "--backup-location"
    ∷ vb.backup_location.name
    ∷ codes "--backup-location-namespace"
    ∷ vb.backup_location.namespace
    ∷ codes "--repository"
    ∷ vb.repository
    ∷ codes "--restore-namespace"
    ∷ o.namespace
    ∷ codes "--credentials"
    ∷ o.data_export_name
    ∷ codes "--target-path"
    ∷ codes "/data"
    ∷ codes "--snapshot-id"
    ∷ vb.snapshot_id
    ∷ []

unfoldable pub validate : JobOpts → Result (Unit {0})
validate o =
    if is_empty o.destination_pvc_name
    then err (errorf (format "destination pvc name should be set" []))
    else if is_empty o.volume_backup_name
    then err (errorf (format "volumebackup name should be set" []))
    else if is_empty o.volume_backup_namespace
    then err (errorf (format "volumebackup namespace should be set" []))
    else ok tt

-- The errors that the driver passes on as they are.
same_error : Error → Error
same_error e = e

module _ {W F : Type 0} (b : BatchServices W F) where
  unfoldable pub job_for : Retry → JobOpts → VolumeBackup F → Text → Call W (Job b.Quantity)
  job_for r o vb job_name = do
    resources ← kopia_resource_requirements b o.job_config_map o.job_config_map_ns
    setup_service_account b r job_name o.namespace role_for
    spec ←
        executor_pod b o job_name [] (command_line (restore_args o vb)) resources
          (data_mount ∷ cred_mount ∷ [])
          (data_volume (VolumeSource.claim o.destination_pvc_name)
            ∷ cred_volume o.data_export_name
            ∷ [])
    return (executor_job b job_name o.namespace (add_job_labels o.labels) spec)

  -- StartJob after the limit was asked.
  unfoldable pub start_available : Retry → JobOpts → Bool → Call W Text
  unfolding same_error
  start_available r o available =
      if not available
      then raise (record { kind = out_of_job_resources; text = codes "out of job resources" })
      else (do
        lift_result (validate o)
        vb ← b.get_volume_backup o.volume_backup_name o.volume_backup_namespace
        job ← job_for r o vb o.data_export_name
        unless_call is_already_exists same_error (b.create_job job)
        return (namespaced_name job.namespace job.name))

  unfoldable pub start_job : Retry → List JobOption → Call W Text
  start_job r opts = do
    o ← lift_result (apply_options opts no_opts)
    available ← can_job_be_scheduled b Name.kopia_restore
    start_available r o available

  unfoldable pub delete_named : Text → Text → Call W Unit
  unfolding same_error
  delete_named namespace name = do
    unless_call is_not_found same_error (b.delete_secret name namespace)
    clean_service_account b name namespace
    unless_call is_not_found same_error (b.delete_job name namespace)

  unfoldable pub delete_job : Text → Call W Unit
  delete_job = with_id b raise delete_named

  -- JobStatus of a job whose node is there.
  unfoldable pub job_status_of : Text → Text → Job b.Quantity → W → W × JobStatus F
  job_status_of namespace name job w =
      let status = first_condition job.conditions in
      if is_job_failed job.conditions
      then (
        w,
        driver_status b b.zero_percent
            (job_failed_text b "check %s/%s job for details: %s" namespace name) status,
      )
      else (let (w', pending) = is_job_pending b job w in
          if pending
          then (w', driver_status b b.zero_percent [] status)
          else if not (is_job_completed job.conditions)
          then (w', driver_status b b.zero_percent [] status)
          else (w', driver_status b b.hundred_percent [] status))

  unfoldable pub named_status : Text → Text → Call W (JobStatus F)
  named_status namespace name = do
    job ← b.get_job name namespace
    wrap (node_error b namespace name) (job_node_exists b job)
    setting b (job_status_of namespace name job)

  unfoldable pub job_status : Text → Call W (JobStatus F)
  job_status = with_id b (bad_id b) named_status

  abbrev pub driver : Retry → Driver W F
  driver r = record {
    name = Name.kopia_restore;
    start_job = start_job r;
    delete_job = delete_job;
    job_status = job_status;
  }
