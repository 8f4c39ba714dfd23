-- ===== src/Drivers/KopiaBackup.antt =====
-- The driver of kopia backups: pkg/drivers/kopiabackup/kopiabackup.go and kopiabackuplive.go.
pub mod Arguments
pub mod Command
pub mod Start
pub mod Status
use kdmp.Base.{
  Bool, false, String, List, [], ◌∷◌, ◌++◌, Text, codes, Error, ErrorKind, errorf, Result, ok, err,
  Call, format, is_empty, is_not_found, is_already_exists, text_eq, if◌then◌else◌,
  job_already_running, out_of_job_resources,
}
use kdmp.Base.Results.{return, raise, wrap, lift_result, ◌>>=◌, ◌>>◌}
use kdmp.Base.Strings.{join, split, lookup_text, insert_text}
use kdmp.Drivers.{Driver, JobStatus, JobConditionType, apply_options}
use kdmp.Api.{VolumeBackup}
use kdmp.Drivers.Name
use kdmp.Drivers.Options.{JobOpts, JobOption, no_opts}
use kdmp.Drivers.KopiaJob.{
  cred_mount, data_mount, cred_volume, data_volume, command_line, driver_status, executor_pod,
  executor_job, named_error, node_error, delete_plain, with_id, bad_id, job_failed_text,
}
use kdmp.Services.{Retry}
use kdmp.Jobs.{namespaced_name}
use kdmp.Jobs.Batch.{BatchServices, Job, Pod, PolicyRule, PodSpec, Resources, VolumeSource}
use kdmp.Jobs.Config.{kopia_resource_requirements, setting}
use kdmp.Jobs.State.{is_job_pending, job_node_exists, job_or_node_failed, first_condition}
use kdmp.Jobs.Accounts.{setup_service_account, clean_service_account, unless_call}
use kdmp.JobRateLimit.{
  driver_name_label, pvc_name_key, pvc_uid_key, can_job_be_scheduled,
  is_job_for_pvc_already_running, is_job_already_present,
}

unfoldable pub to_repo_name : Text → Text → Text
to_repo_name pvc_name pvc_namespace = pvc_namespace ++ (b'-' ∷ pvc_name)

unfoldable pub add_job_labels : List (Text × Text) → List (Text × Text)
add_job_labels labels = insert_text driver_name_label Name.kopia_backup labels

abbrev pub role_for : List PolicyRule
role_for =
    record {
      api_groups = codes "kdmp.portworx.com" ∷ [];
      resources = codes "volumebackups" ∷ [];
      resource_names = [];
      verbs = codes "*" ∷ [];
    }
    ∷ record {
      api_groups = codes "security.openshift.io" ∷ [];
      resources = codes "securitycontextconstraints" ∷ [];
      resource_names = codes "hostaccess" ∷ [];
      verbs = codes "use" ∷ [];
    }
    ∷ []

-- The words of the executor's command line in jobFor.
unfoldable pub backup_args : Text → JobOpts → List Text
unfolding to_repo_name
backup_args job_name o =
    codes "/kopiaexecutor"
    ∷ codes "backup"
    ∷ codes "--volume-backup-name"
    ∷ job_name
    ∷ codes "--repository"
    ∷ to_repo_name o.repo_pvc_name o.namespace
    ∷ codes "--credentials"
    ∷ o.data_export_name
    ∷ codes "--backup-location"
    ∷ o.backup_location_name
    ∷ codes "--backup-location-namespace"
    ∷ o.backup_location_namespace
    ∷ codes "--backup-namespace"
    ∷ o.namespace
    ∷ codes "--source-path"
    ∷ codes "/data"
    ∷ []

-- Those in jobForLiveBackup, with the glob of the volume's directory.
unfoldable pub live_args : Text → Text → JobOpts → List Text
unfolding to_repo_name
live_args job_name backup_path o =
    codes "/kopiaexecutor"
    ∷ codes "backup"
    ∷ codes "--volume-backup-name"
    ∷ job_name
    ∷ codes "--credentials"
    ∷ o.data_export_name
    ∷ codes "--backup-location"
    ∷ o.backup_location_name
    ∷ codes "--backup-location-namespace"
    ∷ o.backup_location_namespace
    ∷ codes "--backup-namespace"
    ∷ o.namespace
    ∷ codes "--repository"
    ∷ to_repo_name o.repo_pvc_name o.namespace
    ∷ codes "--source-path-glob"
    ∷ backup_path
    ∷ []

-- The command line is split and joined again where a compression is set.
unfoldable pub with_compression : Text → Text → Text
with_compression [] cmd = cmd
with_compression (c ∷ compression) cmd =
    command_line (split b' ' cmd ++ (codes "--compression" ∷ (c ∷ compression) ∷ []))

unfoldable pub validate : JobOpts → Result (Unit {0})
validate o =
    if is_empty o.backup_location_name
    then err (errorf (format "backuplocation name should be set" []))
    else if is_empty o.backup_location_namespace
    then err (errorf (format "backuplocation namespace should be set" []))
    else ok tt

-- The directory with a pod's volumes on its node.
unfoldable pub pod_volumes_path : Text → Text → Text
pod_volumes_path [] uid = codes "/var/lib/kubelet/pods/" ++ (uid ++ codes "/volumes")
pod_volumes_path (c ∷ path) uid = (c ∷ path) ++ (b'/' ∷ (uid ++ codes "/volumes"))

module _ {W F : Type 0} (b : BatchServices W F) where
  abbrev pub named_job : JobOpts → Text → PodSpec b.Quantity → Call W (Job b.Quantity)
  named_job o job_name spec =
      return (executor_job b job_name o.namespace (add_job_labels o.labels) spec)

  abbrev pub claim_pod : JobOpts → Text → Resources b.Quantity → Call W (PodSpec b.Quantity)
  claim_pod o job_name resources =
      executor_pod b o job_name []
        (with_compression o.compression (command_line (backup_args job_name o))) resources
        (data_mount ∷ cred_mount ∷ [])
        (data_volume (VolumeSource.claim o.source_pvc_name) ∷ cred_volume o.data_export_name ∷ [])

  unfoldable pub job_for : JobOpts → Text → Resources b.Quantity → Call W (Job b.Quantity)
  job_for o job_name resources = do spec ← claim_pod o job_name resources; named_job o job_name spec

  -- getVolumeDirectory.
  unfoldable pub get_volume_directory : Text → Text → Call W Text
  get_volume_directory name namespace = do
    pvc ←
        wrap (named_error b "error fetching PVC %s/%s: %s" namespace name)
          (b.get_pvc name namespace)
    csi ←
        wrap (named_error b "error fetching PV %s/%s: %s" namespace name)
          (b.get_pv_is_csi pvc.volume_name)
    return (if csi then pvc.volume_name ++ codes "/mount" else pvc.volume_name)

  abbrev pub live_pod :
      JobOpts → Text → Pod → Resources b.Quantity → Text → Call W (PodSpec b.Quantity)
  live_pod o job_name pod resources dir =
      executor_pod b o job_name pod.node_name
        (with_compression o.compression
          (command_line (live_args job_name (codes "/data/*/" ++ dir) o)))
        resources (data_mount ∷ cred_mount ∷ [])
        (data_volume (VolumeSource.host_path (pod_volumes_path o.pod_data_path pod.uid))
          ∷ cred_volume o.data_export_name
          ∷ [])

  unfoldable pub job_for_live_backup :
      JobOpts → Text → Pod → Resources b.Quantity → Call W (Job b.Quantity)
  job_for_live_backup o job_name pod resources = do
    dir ← get_volume_directory o.source_pvc_name o.namespace
    spec ← live_pod o job_name pod resources dir
    named_job o job_name spec

  -- buildJob, after the pods that use the claim were read.
  unfoldable pub job_for_pods :
      JobOpts → Text → Resources b.Quantity → List Pod → Call W (Job b.Quantity)
  job_for_pods o job_name resources [] = job_for o job_name resources
  job_for_pods o job_name resources (pod ∷ _) =
      if text_eq pod.phase (codes "Pending")
      then raise (
          errorf (
            format "pods %v is using pvc %v/%v but it is in pending state, backup is not possible"
              (pod.name ∷ o.namespace ∷ o.source_pvc_name ∷ [])))
      else job_for_live_backup o job_name pod resources

  abbrev pub account_for : Retry → Text → JobOpts → Call W Unit
  account_for r job_name o =
      wrap (named_error b "error creating service account %s/%s: %v" o.namespace job_name)
        (setup_service_account b r job_name o.namespace role_for)

  abbrev pub pods_of_claim : JobOpts → Call W (List Pod)
  pods_of_claim o =
      wrap (named_error b "error fetching pods using PVC %s/%s: %v" o.namespace o.source_pvc_name)
        (b.get_pods_using_pvc o.source_pvc_name o.namespace)

  unfoldable pub build_job : Retry → Text → JobOpts → Call W (Job b.Quantity)
  build_job r job_name o = do
    resources ← kopia_resource_requirements b o.job_config_map o.job_config_map_ns
    account_for r job_name o
    pods ← pods_of_claim o
    job_for_pods o job_name resources pods

  abbrev job_error : String → Text → Error → Error
  job_error msg job_name e = errorf (format msg (job_name ∷ e.text ∷ []))

  -- The job that was built is created, unless it is there.
  abbrev pub create_built : JobOpts → Job b.Quantity → Call W Unit
  create_built o job =
      unless_call is_already_exists
        (job_error "creation of backup job %s failed: %v" o.data_export_name) (b.create_job job)

  abbrev pub built : Retry → JobOpts → Call W (Job b.Quantity)
  built r o =
      wrap (job_error "building backup job %s failed: %v" o.data_export_name)
        (build_job r o.data_export_name o)

  -- StartJob after the job and the limit were looked at.
  unfoldable pub create_backup : Retry → JobOpts → Call W Text
  create_backup r o = do
    lift_result (validate o)
    job ← built r o
    create_built o job
    return (namespaced_name job.namespace job.name)

  unfoldable pub start_scheduled : Retry → JobOpts → Bool → Call W Text
  start_scheduled r o available =
      if available
      then create_backup r o
      else raise (record { kind = out_of_job_resources; text = codes "out of job resources" })

  -- Where no job runs for the claim.
  unfoldable pub start_available : Retry → JobOpts → Bool → Call W Text
  start_available r o running =
      if running
      then raise (record { kind = job_already_running; text = codes "job Already Running" })
      else (do available ← can_job_be_scheduled b Name.kopia_backup; start_scheduled r o available)

  abbrev pub running_for_claim : JobOpts → Call W Bool
  running_for_claim o =
      is_job_for_pvc_already_running b (lookup_text pvc_name_key o.labels) o.namespace
        (lookup_text pvc_uid_key o.labels) Name.kopia_backup

  -- Where the job is not there yet.
  unfoldable pub start_absent : Retry → JobOpts → Bool → Call W Text
  start_absent r o present =
      if present
      then return (namespaced_name o.namespace o.data_export_name)
      else (do running ← running_for_claim o; start_available r o running)

  unfoldable pub start_job : Retry → List JobOption → Call W Text
  start_job r opts = do
    o ← lift_result (apply_options opts no_opts)
    present ← setting b (is_job_already_present b o.data_export_name o.namespace)
    start_absent r o present

  unfoldable pub delete_pods : Text → List Pod → Call W Unit
  delete_pods namespace [] = return tt
  delete_pods namespace (pod ∷ pods) = do
    unless_call is_not_found
        (named_error b "deletion of backup pod %s/%s failed: %v" namespace pod.name)
        (b.force_delete_pod pod.name pod.namespace)
    delete_pods namespace pods

  -- Where the job's node is not ready.
  unfoldable pub force_delete : Text → Text → Job b.Quantity → Call W Unit
  force_delete namespace name job = do
    unless_call is_not_found
        (named_error b "deletion of backup job %s/%s failed: %v" namespace name)
        (b.delete_job_with_force job.name job.namespace)
    pods ←
        wrap (named_error b "failed in fetching job pods %s/%s: %v" namespace name)
          (b.get_job_pods job.namespace job.name)
    delete_pods namespace pods

  unfoldable pub delete_by_node : Text → Text → Job b.Quantity → Call W Unit
  delete_by_node namespace name job w =
      let plain =
        delete_plain b (named_error b "deletion of backup job %s/%s failed: %v" namespace name) name
          namespace in
      if is_empty job.spec.node_name
      then plain w
      else (let (w', r) = b.is_node_ready job.spec.node_name w in
          elim r [ ok _ ↦ plain w' | err _ ↦ force_delete namespace name job w' ])

  -- After GetJob: a job that is not found has no node name.
  unfoldable pub delete_found : Text → Text → Result (Job b.Quantity) → Call W Unit
  delete_found namespace name (ok job) = delete_by_node namespace name job
  delete_found namespace name (err e) =
      if is_not_found e
      then delete_plain b (named_error b "deletion of backup job %s/%s failed: %v" namespace name)
          name namespace
      else raise (named_error b "failed in getting job %v/%v with err: %v" namespace name e)

  unfoldable pub delete_named : Text → Text → Call W Unit
  delete_named namespace name = do
    unless_call is_not_found
        (λ e. errorf (format "failed to delete VolumeBackup CR %v: %v" (name ∷ e.text ∷ [])))
        (b.delete_volume_backup name namespace)
    unless_call is_not_found
        (λ e.
          errorf (format "deletion of backup credential secret %s failed: %v" (name ∷ e.text ∷ [])))
        (b.delete_secret name namespace)
    wrap (named_error b "deletion of service account %s/%s failed: %v" namespace name)
        (clean_service_account b name namespace)
    λ w. (let (w', r) = b.get_job name namespace w in delete_found namespace name r w')

  unfoldable pub delete_job : Text → Call W Unit
  delete_job = with_id b raise delete_named

  unfoldable pub unread_status : Text → Text → Job b.Quantity → Error → Bool → Call W (JobStatus F)
  unread_status namespace name job e pending =
      if pending
      then return (driver_status b b.zero_percent [] (first_condition job.conditions))
      else raise (named_error b "failed to fetch volumebackup %s/%s status: %v" namespace name e)

  -- JobStatus where the volume backup could not be read.
  unfoldable pub status_without : Text → Text → Job b.Quantity → Error → Call W (JobStatus F)
  unfolding unread_status
  status_without namespace name job e =
      if is_not_found e
      then (do
        pending ← setting b (is_job_pending b job)
        unread_status namespace name job e pending)
      else unread_status namespace name job e false

  unfoldable pub read_status :
      Text → Text → Job b.Quantity → Result (VolumeBackup F) → Call W (JobStatus F)
  read_status namespace name job (ok vb) =
      return (
        driver_status b vb.progress_percentage vb.last_known_error (first_condition job.conditions))
  read_status namespace name job (err e) = status_without namespace name job e

  -- JobStatus where the job and its node did not fail.
  unfoldable pub transfer_status : Text → Text → Job b.Quantity → Call W (JobStatus F)
  transfer_status namespace name job w =
      let (w', r) = b.get_volume_backup name namespace w in read_status namespace name job r w'

  unfoldable pub job_status_of : Text → Text → Job b.Quantity → Bool × Bool → Call W (JobStatus F)
  job_status_of namespace name job (job_err, node_err) =
      if job_err
      then return (
          driver_status b b.zero_percent
            (job_failed_text b "check %s/%s job for details: %s" namespace name)
            (first_condition job.conditions))
      else if node_err
      then return (
          driver_status b b.zero_percent
            (format "Node [%v] on which job [%v/%v] schedules is NotReady"
              (job.spec.node_name ∷ namespace ∷ name ∷ []))
            (first_condition job.conditions))
      else transfer_status namespace name job

  unfoldable pub named_status : Text → Text → Call W (JobStatus F)
  named_status namespace name = do
    job ←
        wrap (named_error b "failed to fetch backup %s/%s job: %v" namespace name)
          (b.get_job name namespace)
    wrap (node_error b namespace name) (job_node_exists b job)
    failed ← setting b (job_or_node_failed b job)
    job_status_of namespace name job failed

  unfoldable pub job_status : Text → Call W (JobStatus F)
  job_status = with_id b (bad_id b) named_status

  abbrev pub driver : Retry → Driver W F
  driver r = record {
    name = Name.kopia_backup;
    start_job = start_job r;
    delete_job = delete_job;
    job_status = job_status;
  }
