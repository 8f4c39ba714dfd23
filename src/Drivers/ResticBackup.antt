-- ===== src/Drivers/ResticBackup.antt =====
-- The driver of restic backups: pkg/drivers/resticbackup/resticbackup.go and resticbackuplive.go.
use kdmp.Base.{
  List, [], ◌∷◌, ◌++◌, Text, codes, errorf, Result, ok, err, Call, format, is_empty,
  is_already_exists, if◌then◌else◌,
}
use kdmp.Base.Results.{return, wrap, lift_result, ◌>>=◌, ◌>>◌}
use kdmp.Base.Strings.{insert_text}
use kdmp.Drivers.{Driver, JobStatus, apply_options}
use kdmp.Drivers.Name
use kdmp.Drivers.Options.{JobOpts, JobOption, no_opts}
use kdmp.Drivers.KopiaJob.{
  command_line, driver_status, node_error, with_id, bad_id, job_failed_text,
}
use kdmp.Drivers.ResticJob
use kdmp.Services.{Retry}
use kdmp.Jobs.{namespaced_name, is_job_failed}
use kdmp.Jobs.Batch.{BatchServices, Job, Pod, Resources, VolumeSource}
use kdmp.Jobs.Config.{restic_resource_requirements}
use kdmp.Jobs.State.{job_node_exists, first_condition}
use kdmp.Jobs.Accounts.{setup_service_account, unless_call}
use kdmp.JobRateLimit.{driver_name_label}

unfoldable pub to_job_name : Text → Text
to_job_name id = codes "resticbackup-" ++ id

unfoldable pub to_repo_name : Text → Text → Text
to_repo_name pvc_name pvc_namespace = codes "restic/" ++ (pvc_namespace ++ (b'-' ∷ pvc_name))

unfoldable pub add_job_labels : List (Text × Text) → List (Text × Text)
add_job_labels labels = insert_text driver_name_label Name.restic_backup labels

-- The words of the command line, the last two being the flag and the path of the source.
unfoldable pub backup_args : Text → JobOpts → Text → Text → List Text
unfolding to_repo_name
backup_args job_name o source_flag source =
    codes "/resticexecutor"
    ∷ codes "backup"
    ∷ codes "--backup-location"
    ∷ o.backup_location_name
    ∷ codes "--namespace"
    ∷ o.backup_location_namespace
    ∷ codes "--volume-backup-name"
    ∷ job_name
    ∷ codes "--repository"
    ∷ to_repo_name o.source_pvc_name o.namespace
    ∷ codes "--secret-file-path"
    ∷ codes "/etc/resticsecret/secret"
    ∷ source_flag
    ∷ source
    ∷ []

unfoldable pub validate : JobOpts → Result (Unit {0})
validate o =
    if is_empty o.backup_location_name
    then err (errorf (format "backuplocation name should be set" []))
    else if is_empty o.backup_location_namespace
    then err (errorf (format "backuplocation namespace should be set" []))
    else ok tt

module _ {W F : Type 0} (b : BatchServices W F) where
  unfoldable pub job_for : JobOpts → Text → Resources b.Quantity → Call W (Job b.Quantity)
  unfolding backup_args
  job_for o job_name resources w = (
    w,
    ok (
        ResticJob.restic_job b job_name o.namespace (add_job_labels o.labels) (
          ResticJob.restic_pod b job_name []
            (command_line (backup_args job_name o (codes "--source-path") (codes "/data")))
            resources (VolumeSource.claim o.source_pvc_name) job_name w)),
  )

  -- getVolumeDirectory.
  unfoldable pub get_volume_directory : Text → Text → Call W Text
  get_volume_directory name namespace = do
    pvc ← b.get_pvc name namespace
    csi ← b.get_pv_is_csi pvc.volume_name
    return (if csi then pvc.volume_name ++ codes "/mount" else pvc.volume_name)

  unfoldable pub job_for_live_backup :
      JobOpts → Text → Pod → Resources b.Quantity → Call W (Job b.Quantity)
  unfolding backup_args get_volume_directory
  job_for_live_backup o job_name pod resources = do
    dir ← get_volume_directory o.source_pvc_name o.namespace
    λ w. (
      w,
      ok (
          ResticJob.restic_job b job_name o.namespace (add_job_labels o.labels) (
            ResticJob.restic_pod b job_name pod.node_name
              (command_line
                (backup_args job_name o (codes "--source-path-glob") (codes "/data/*/" ++ dir)))
              resources
              (VolumeSource.host_path
                (codes "/var/lib/kubelet/pods/" ++ (pod.uid ++ codes "/volumes")))
              job_name w)),
    )

  -- buildJob, after the pods that use the claim were read.
  unfoldable pub job_for_pods :
      JobOpts → Text → Resources b.Quantity → List Pod → Call W (Job b.Quantity)
  unfolding job_for job_for_live_backup
  job_for_pods o job_name resources [] = job_for o job_name resources
  job_for_pods o job_name resources (pod ∷ _) = job_for_live_backup o job_name pod resources

  unfoldable pub build_job : Retry → Text → JobOpts → Call W (Job b.Quantity)
  unfolding job_for_pods
  build_job r job_name o = do
    resources ← restic_resource_requirements b
    setup_service_account b r job_name o.namespace ResticJob.role_for
    pods ← b.get_pods_using_pvc o.source_pvc_name o.namespace
    job_for_pods o job_name resources pods

  unfoldable pub start_job : Retry → List JobOption → Call W Text
  unfolding validate build_job to_job_name
  start_job r opts = do
    o ← lift_result (apply_options opts no_opts)
    lift_result (validate o)
    let job_name = to_job_name o.source_pvc_name
    ResticJob.create_password b "create a secret for a restic password: %s" job_name o.namespace
    job ← build_job r job_name o
    unless_call is_already_exists ResticJob.same_error (b.create_job job)
    return (namespaced_name job.namespace job.name)

  -- JobStatus of a job whose node is there: the progress is that of the volume backup with the
  -- job's name.
  unfoldable pub job_status_of : Text → Text → Job b.Quantity → Call W (JobStatus F)
  job_status_of namespace name job =
      let status = first_condition job.conditions in
      if is_job_failed job.conditions
      then return (
          driver_status b b.zero_percent
            (job_failed_text b "check %s/%s job for details: %s" namespace name) status)
      else (do
        vb ← b.get_volume_backup name namespace
        return (driver_status b vb.progress_percentage vb.last_known_error status))

  unfoldable pub named_status : Text → Text → Call W (JobStatus F)
  unfolding job_status_of
  named_status namespace name = do
    job ← b.get_job name namespace
    wrap (node_error b namespace name) (job_node_exists b job)
    job_status_of namespace name job

  unfoldable pub job_status : Text → Call W (JobStatus F)
  unfolding named_status
  job_status = with_id b (bad_id b) named_status

  abbrev pub driver : Retry → Driver W F
  driver r = record {
    name = Name.restic_backup;
    start_job = start_job r;
    delete_job = ResticJob.delete_job b;
    job_status = job_status;
  }
