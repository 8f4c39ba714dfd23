-- ===== src/Drivers/KopiaDelete.antt =====
-- The driver that deletes kopia snapshots: pkg/drivers/kopiadelete/kopiadelete.go.
use kdmp.Base.{
  Bool, not, String, List, [], ◌∷◌, ◌++◌, Text, codes, Error, errorf, Call, format, is_not_found,
  is_already_exists, if◌then◌else◌, out_of_job_resources,
}
use kdmp.Base.Results.{return, raise, wrap, lift_result, ◌>>=◌, ◌>>◌}
use kdmp.Base.Strings.{insert_text}
use kdmp.Drivers.{Driver, JobStatus, apply_options}
use kdmp.Drivers.Name
use kdmp.Drivers.Options.{JobOpts, JobOption, no_opts}
use kdmp.Drivers.KopiaJob.{
  cred_mount, cred_volume, command_line, driver_status, executor_pod, executor_job, named_error,
  node_error, with_id, bad_id, job_failed_text,
}
use kdmp.Drivers.KopiaBackup.{to_repo_name}
use kdmp.Jobs.{namespaced_name, is_job_failed, is_job_completed}
use kdmp.Jobs.Batch.{BatchServices, Job, Resources, VolumeBackupDelete}
use kdmp.Jobs.Config.{kopia_resource_requirements}
use kdmp.Jobs.State.{job_node_exists, first_condition}
use kdmp.Jobs.Accounts.{skip_resource_annotations, unless_call}
use kdmp.JobRateLimit.{driver_name_label, can_job_be_scheduled}

unfoldable pub to_job_name : Text → Text → Text
to_job_name [] snapshot_id = codes "d-" ++ snapshot_id
to_job_name (c ∷ job_name) snapshot_id = c ∷ job_name

unfoldable pub add_volume_backup_delete_labels : JobOpts → List (Text × Text)
add_volume_backup_delete_labels o =
    insert_text (codes "backup-object-uid") o.backup_object_uid
      (insert_text (codes "backup-object-name") o.backup_object_name [])

unfoldable pub add_job_labels : List (Text × Text) → JobOpts → List (Text × Text)
add_job_labels labels o = insert_text (codes "backup-object-uid") o.backup_object_uid (
    insert_text (codes "backup-object-name") o.backup_object_name
      (insert_text driver_name_label Name.kopia_delete labels))

unfoldable pub delete_args : JobOpts → List Text
unfolding to_repo_name
delete_args o =
    codes "/kopiaexecutor"
    ∷ codes "delete"
    ∷ codes "--repository"
    ∷ to_repo_name o.source_pvc_name o.source_pvc_namespace
    ∷ codes "--cred-secret-name"
    ∷ o.cred_secret_name
    ∷ codes "--cred-secret-namespace"
    ∷ o.cred_secret_namespace
    ∷ codes "--snapshot-id"
    ∷ o.snapshot_id
    ∷ codes "--volume-backup-delete-name"
    ∷ o.volume_backup_delete_name
    ∷ codes "--volume-backup-delete-namespace"
    ∷ o.volume_backup_delete_namespace
    ∷ []

-- The resource that stores the status of the delete job.
unfoldable pub volume_backup_delete_for : JobOpts → VolumeBackupDelete
volume_backup_delete_for o = record {
  name = o.volume_backup_delete_name;
  namespace = o.volume_backup_delete_namespace;
  annotations = skip_resource_annotations;
  labels = add_volume_backup_delete_labels o;
  pvc_name = o.source_pvc_name;
  snapshot_id = o.snapshot_id;
}

module _ {W F : Type 0} (b : BatchServices W F) where
  unfoldable pub job_for :
      JobOpts → Text → Resources b.Quantity → List (Text × Text) → Call W (Job b.Quantity)
  job_for o job_name resources labels = do
    spec ←
        executor_pod b o o.service_account_name [] (command_line (delete_args o)) resources
          (cred_mount ∷ []) (cred_volume o.cred_secret_name ∷ [])
    return (executor_job b job_name o.job_namespace labels spec)

  unfoldable pub build_job : Text → JobOpts → Call W (Job b.Quantity)
  build_job job_name o = do
    resources ← kopia_resource_requirements b o.job_config_map o.job_config_map_ns
    job_for o job_name resources (add_job_labels o.labels o)

  abbrev job_error : String → Text → Error → Error
  job_error msg job_name e = errorf (format msg (job_name ∷ e.text ∷ []))

  -- StartJob after the limit was asked; validate has no condition.
  unfoldable pub start_available : JobOpts → Bool → Call W Text
  start_available o available =
      if not available
      then raise (record { kind = out_of_job_resources; text = codes "out of job resources" })
      else (do
        unless_call is_already_exists
            (named_error b "failed in creating volumeBackupDelete  [%s/%s]: %v"
              o.volume_backup_delete_name o.volume_backup_delete_namespace)
            (b.create_volume_backup_delete (volume_backup_delete_for o))
        job ←
            wrap
              (job_error "building backup snapshot delete job [%s] failed: %v"
                (to_job_name o.job_name o.snapshot_id))
              (build_job (to_job_name o.job_name o.snapshot_id) o)
        unless_call is_already_exists
            (job_error "creation of backup snapshot delete job [%s] failed: %v"
              (to_job_name o.job_name o.snapshot_id))
            (b.create_job job)
        return (namespaced_name job.namespace job.name))

  unfoldable pub start_job : List JobOption → Call W Text
  start_job opts = do
    o ← lift_result (apply_options opts no_opts)
    available ← can_job_be_scheduled b Name.kopia_delete
    start_available o available

  unfoldable pub delete_named : Text → Text → Text → Call W Unit
  delete_named id namespace name = do
    unless_call is_not_found
        (λ e. errorf (format "failed to delete volumeBackupDelete CR [%v]: %v" (id ∷ e.text ∷ [])))
        (b.delete_volume_backup_delete name namespace)
    unless_call is_not_found
        (named_error b "deletion of delete snapshot job [%s/%s] failed: %v" namespace name)
        (b.delete_job name namespace)

  unfoldable pub delete_job : Text → Call W Unit
  delete_job id = with_id b raise (delete_named id) id

  -- JobStatus of a job whose node is there.
  unfoldable pub job_status_of : String → Text → Text → Job b.Quantity → JobStatus F
  job_status_of msg namespace name job =
      if is_job_failed job.conditions
      then driver_status b b.zero_percent (job_failed_text b msg namespace name)
          (first_condition job.conditions)
      else if is_job_completed job.conditions
      then driver_status b b.hundred_percent [] (first_condition job.conditions)
      else driver_status b b.zero_percent [] (first_condition job.conditions)

  -- The texts of the two errors are the driver's own.
  unfoldable pub named_status : String → String → Text → Text → Call W (JobStatus F)
  named_status get_msg failed_msg namespace name = do
    job ← wrap (named_error b get_msg namespace name) (b.get_job name namespace)
    wrap (node_error b namespace name) (job_node_exists b job)
    return (job_status_of failed_msg namespace name job)

  unfoldable pub job_status : Text → Call W (JobStatus F)
  job_status =
      with_id b (bad_id b)
        (named_status "failed to fetch backup %s/%s job: %v" "check %s/%s job for details: %s")

  abbrev pub driver : Driver W F
  driver = record {
    name = Name.kopia_delete;
    start_job = start_job;
    delete_job = delete_job;
    job_status = job_status;
  }
