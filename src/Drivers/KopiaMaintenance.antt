-- ===== src/Drivers/KopiaMaintenance.antt =====
-- The driver of the maintenance of kopia repositories, which makes cron jobs:
-- pkg/drivers/kopiamaintenance/kopiamaintenance.go.
use kdmp.Base.{
  String, List, [], ◌∷◌, ◌++◌, Text, codes, Error, errorf, Result, ok, err, Call, format, is_empty,
  is_not_found, is_already_exists, text_eq, if◌then◌else◌,
}
use kdmp.Base.Results.{return, raise, wrap, lift_result, map_error, ◌>>=◌, ◌>>◌}
use kdmp.Base.Strings.{insert_text}
use kdmp.Drivers.{Driver, JobStatus, apply_options}
use kdmp.Drivers.Name
use kdmp.Drivers.Options.{JobOpts, JobOption, no_opts}
use kdmp.Drivers.KopiaJob.{
  cred_mount, cred_volume, command_line, executor_pod, executor_job, named_error, with_id, bad_id,
}
use kdmp.Drivers.KopiaDelete.{named_status}
use kdmp.Jobs.{namespaced_name}
use kdmp.Jobs.Batch.{BatchServices, CronJob, Resources}
use kdmp.Jobs.Config.{kopia_resource_requirements}
use kdmp.Jobs.Accounts.{unless_call}
use kdmp.JobRateLimit.{driver_name_label}

unfoldable pub to_job_name : Text → Text → Text
to_job_name [] backup_location = codes "repo-maintenance-" ++ backup_location
to_job_name (c ∷ job_name) backup_location = c ∷ job_name

unfoldable pub add_job_labels : List (Text × Text) → List (Text × Text)
add_job_labels labels = insert_text driver_name_label Name.kopia_maintenance labels

unfoldable pub validate : JobOpts → Result (Unit {0})
validate o =
    if is_empty o.cred_secret_name
    then err (errorf (format "credential secret name should be set" []))
    else if is_empty o.cred_secret_namespace
    then err (errorf (format "credential secret namespace  should be set" []))
    else ok tt

unfoldable pub schedule_interval : Text → Text
schedule_interval maintenance_type =
    if text_eq maintenance_type (codes "full") then codes "0 */24 * * *" else codes "0 */2 * * *"

unfoldable pub maintenance_args : JobOpts → List Text
maintenance_args o =
    codes "/kopiaexecutor"
    ∷ codes "maintenance"
    ∷ codes "--cred-secret-name"
    ∷ o.cred_secret_name
    ∷ codes "--cred-secret-namespace"
    ∷ o.cred_secret_namespace
    ∷ codes "--maintenance-status-name"
    ∷ o.maintenance_status_name
    ∷ codes "--maintenance-status-namespace"
    ∷ o.maintenance_status_namespace
    ∷ codes "--maintenance-type"
    ∷ o.maintenance_type
    ∷ []

module _ {W F : Type 0} (b : BatchServices W F) where
  unfoldable pub job_for : JobOpts → Text → Resources b.Quantity → Call W (CronJob b.Quantity)
  job_for o job_name resources = do
    spec ←
        executor_pod b o o.service_account_name [] (command_line (maintenance_args o)) resources
          (cred_mount ∷ []) (cred_volume o.cred_secret_name ∷ [])
    return (record {
      schedule = schedule_interval o.maintenance_type;
      successful_jobs_history_limit = 1;
      failed_jobs_history_limit = 1;
      job = executor_job b job_name o.job_namespace (add_job_labels o.labels) spec;
    })

  unfoldable pub build_job : Text → JobOpts → Call W (CronJob b.Quantity)
  build_job job_name o = do
    resources ← kopia_resource_requirements b o.job_config_map o.job_config_map_ns
    job_for o job_name resources

  abbrev job_error : String → Text → Text → Error → Error
  job_error msg job_name location e = errorf (format msg (job_name ∷ location ∷ e.text ∷ []))

  unfoldable pub start_with : JobOpts → Call W Text
  start_with o = do
    lift_result (
        map_error
          (λ e. errorf (
            format "validation failed for maintenance job for backuplocation [%v]: %v"
              (o.backup_location_name ∷ e.text ∷ [])))
          (validate o))
    job ←
        wrap
          (job_error "building maintenance job [%s] for backuplocation [%v] failed: %v"
            (to_job_name o.job_name o.backup_location_name) o.backup_location_name)
          (build_job (to_job_name o.job_name o.backup_location_name) o)
    unless_call is_already_exists
        (job_error "creation of maintenance job [%s] for backuplocation [%v] failed: %v"
          (to_job_name o.job_name o.backup_location_name) o.backup_location_name)
        (b.create_cron_job job)
    return (namespaced_name job.job.namespace job.job.name)

  unfoldable pub start_job : List JobOption → Call W Text
  start_job opts = do o ← lift_result (apply_options opts no_opts); start_with o

  unfoldable pub delete_named : Text → Text → Call W Unit
  delete_named namespace name =
      unless_call is_not_found
        (named_error b "deletion of maintenance job [%s/%s] failed: %v" namespace name)
        (b.delete_cron_job name namespace)

  unfoldable pub delete_job : Text → Call W Unit
  delete_job = with_id b raise delete_named

  -- The job that is asked for is no cron job.
  unfoldable pub job_status : Text → Call W (JobStatus F)
  job_status = with_id b (bad_id b) (
      named_status b "failed to fetch maintenance [%s/%s] job: %v"
        "check maintenance [%s/%s] job for details: %s")

  abbrev pub driver : Driver W F
  driver = record {
    name = Name.kopia_maintenance;
    start_job = start_job;
    delete_job = delete_job;
    job_status = job_status;
  }
