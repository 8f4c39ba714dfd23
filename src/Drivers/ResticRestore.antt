-- ===== src/Drivers/ResticRestore.antt =====
-- The driver of restic restores: pkg/drivers/resticrestore/resticrestore.go.
pub mod Start
pub mod Stop
use kdmp.Base.{
  List, [], ◌∷◌, ◌++◌, Text, codes, errorf, Result, ok, err, Call, format, is_empty,
  is_already_exists, if◌then◌else◌,
}
use kdmp.Base.Results.{return, wrap, lift_result, ◌>>=◌, ◌>>◌}
use kdmp.Base.Strings.{insert_text}
use kdmp.Api.{VolumeBackup}
use kdmp.Drivers.{Driver, JobStatus, apply_options}
use kdmp.Drivers.Name
use kdmp.Drivers.Options.{JobOpts, JobOption, no_opts}
use kdmp.Drivers.KopiaJob.{
  command_line, driver_status, node_error, with_id, bad_id, job_failed_text,
}
use kdmp.Drivers.ResticJob
use kdmp.Services.{Retry}
use kdmp.Jobs.{namespaced_name, is_job_failed, is_job_completed}
use kdmp.Jobs.Batch.{BatchServices, Job, VolumeSource}
use kdmp.Jobs.Config.{restic_resource_requirements}
use kdmp.Jobs.State.{job_node_exists, first_condition}
use kdmp.Jobs.Accounts.{setup_service_account, unless_call}
use kdmp.JobRateLimit.{driver_name_label}

unfoldable pub to_job_name : Text → Text
to_job_name id = codes "resticrestore-" ++ id

unfoldable pub add_job_labels : List (Text × Text) → List (Text × Text)
add_job_labels labels = insert_text driver_name_label Name.restic_restore labels

unfoldable pub restore_args : {F : Type 0} → VolumeBackup F → List Text
restore_args vb =
    codes "/resticexecutor"
    ∷ codes "restore"
    ∷ codes "--backup-location"
    ∷ vb.backup_location.name
    ∷ codes "--namespace"
    ∷ vb.backup_location.namespace
    ∷ codes "--repository"
    ∷ vb.repository
    ∷ codes "--secret-file-path"
    ∷ codes "/etc/resticsecret/secret"
    ∷ codes "--target-path"
    ∷ codes "/data"
    ∷ []

unfoldable pub validate : JobOpts → Result (Unit {0})
validate o =
    if is_empty o.volume_backup_name
    then err (errorf (format "volumebackup name should be set" []))
    else if is_empty o.volume_backup_namespace
    then err (errorf (format "volumebackup namespace should be set" []))
    else ok tt

module _ {W F : Type 0} (b : BatchServices W F) where
  unfoldable pub job_for : Retry → JobOpts → VolumeBackup F → Text → Call W (Job b.Quantity)
  unfolding to_job_name
  job_for r o vb secret_name = do
    let job_name = to_job_name o.destination_pvc_name
    resources ← restic_resource_requirements b
    setup_service_account b r job_name o.namespace ResticJob.role_for
    λ w. (
      w,
      ok (
          ResticJob.restic_job b job_name o.namespace (add_job_labels o.labels) (
            ResticJob.restic_pod b job_name [] (command_line (restore_args vb)) resources
              (VolumeSource.claim o.destination_pvc_name) secret_name w)),
    )

  -- StartJob after the volume backup was read: the secret and the job, whose names are made of the
  -- source claim and of the destination.
  unfoldable pub start_restore : Retry → JobOpts → VolumeBackup F → Call W Text
  unfolding job_for to_job_name
  start_restore r o vb = do
    ResticJob.create_password b "create a secret with a restic password: %s"
        (to_job_name o.source_pvc_name) o.namespace
    job ← job_for r o vb (to_job_name o.source_pvc_name)
    unless_call is_already_exists ResticJob.same_error (b.create_job job)
    return (namespaced_name job.namespace job.name)

  unfoldable pub start_job : Retry → List JobOption → Call W Text
  unfolding validate start_restore
  start_job r opts = do
    o ← lift_result (apply_options opts no_opts)
    lift_result (validate o)
    vb ← b.get_volume_backup o.volume_backup_name o.volume_backup_namespace
    start_restore r o vb

  -- JobStatus of a job whose node is there.
  unfoldable pub job_status_of : Text → Text → Job b.Quantity → JobStatus F
  job_status_of namespace name job =
      let status = first_condition job.conditions in
      if is_job_failed job.conditions
      then driver_status b b.zero_percent
          (job_failed_text b "check %s/%s job for details: %s" namespace name) status
      else if is_job_completed job.conditions
      then driver_status b b.hundred_percent [] status
      else driver_status b b.zero_percent [] status

  unfoldable pub named_status : Text → Text → Call W (JobStatus F)
  unfolding job_status_of
  named_status namespace name = do
    job ← b.get_job name namespace
    wrap (node_error b namespace name) (job_node_exists b job)
    return (job_status_of namespace name job)

  unfoldable pub job_status : Text → Call W (JobStatus F)
  unfolding named_status
  job_status = with_id b (bad_id b) named_status

  abbrev pub driver : Retry → Driver W F
  driver r = record {
    name = Name.restic_restore;
    start_job = start_job r;
    delete_job = ResticJob.delete_job b;
    job_status = job_status;
  }
