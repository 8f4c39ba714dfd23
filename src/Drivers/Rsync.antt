-- ===== src/Drivers/Rsync.antt =====
-- The driver of rsync copies: pkg/drivers/rsync/rsync.go.
use kdmp.Base.{
  List, [], ◌∷◌, ◌++◌, Text, codes, errorf, Result, ok, err, Call, format, is_empty,
  is_already_exists, is_not_found, if◌then◌else◌, false,
}
use kdmp.Base.Results.{return, raise, wrap, lift_result, ◌>>=◌, ◌>>◌}
use kdmp.Base.Strings.{insert_text, trim_space}
use kdmp.Drivers.{Driver, JobStatus, JobConditionType, apply_options}
use kdmp.Drivers.Name
use kdmp.Drivers.Options.{JobOpts, JobOption, no_opts}
use kdmp.Drivers.KopiaJob.{driver_status, node_error, with_id, bad_id, job_failed_text}
use kdmp.Drivers.ResticJob.{same_error, restic_job}
use kdmp.Services.{Retry}
use kdmp.Jobs.{namespaced_name, is_job_failed, is_job_completed}
use kdmp.Jobs.Batch.{
  BatchServices, Job, PodSpec, PolicyRule, Resources, VolumeMount, Volume, VolumeSource,
}
use kdmp.Jobs.Config.{
  rsync_image, rsync_image_secret, rsync_command_flags, rsync_openshift_scc,
  rsync_resource_requirements, to_image_pull_secret, or_default,
}
use kdmp.Jobs.State.{job_node_exists, first_condition}
use kdmp.Jobs.Accounts.{setup_service_account, clean_service_account, unless_call}
use kdmp.JobRateLimit.{driver_name_label}

unfoldable pub to_job_name : Text → Text
to_job_name id = codes "import-rsync-" ++ id

unfoldable pub add_job_labels : List (Text × Text) → List (Text × Text)
add_job_labels labels = insert_text driver_name_label Name.rsync labels

-- No rules where no constraint is named.
unfoldable pub role_for : Text → List PolicyRule
role_for [] = []
role_for (c ∷ constrain_name) =
    record {
      api_groups = codes "security.openshift.io" ∷ [];
      resources = codes "securitycontextconstraints" ∷ [];
      resource_names = (c ∷ constrain_name) ∷ [];
      verbs = codes "use" ∷ [];
    }
    ∷ []

unfoldable pub validate : JobOpts → Result (Unit {0})
validate o =
    if is_empty (trim_space o.destination_pvc_name)
    then err (errorf (format "destination pvc name should be set" []))
    else ok tt

-- The command, with the flags from the environment or -avz.
unfoldable pub rsync_command : Text → Text
rsync_command custom =
    format "ls -la /src; ls -la /dst/; rsync %s /src/ /dst" (or_default custom (codes "-avz") ∷ [])

abbrev mount : Text → Text → VolumeMount
mount name path = record { name = name; mount_path = path; read_only = false }

abbrev claim_volume : Text → Text → Volume
claim_volume name claim_name = record { name = name; source = VolumeSource.claim claim_name }

module _ {W F : Type 0} (b : BatchServices W F) where
  abbrev rsync_pod : JobOpts → Text → Text → Resources b.Quantity → W → PodSpec b.Quantity
  rsync_pod o job_name cmd resources w = record {
    restart_policy = codes "OnFailure";
    image_pull_secrets = to_image_pull_secret (rsync_image_secret b w);
    service_account_name = job_name;
    node_name = [];
    container_name = codes "rsync";
    image = rsync_image b w;
    image_pull_policy = [];
    command = codes "/bin/sh" ∷ codes "-x" ∷ codes "-c" ∷ cmd ∷ [];
    resources = resources;
    volume_mounts =
        mount (codes "src-vol") (codes "/src") ∷ mount (codes "dst-vol") (codes "/dst") ∷ [];
    env = [];
    volumes =
        claim_volume (codes "src-vol") o.source_pvc_name
        ∷ claim_volume (codes "dst-vol") o.destination_pvc_name
        ∷ [];
  }

  unfoldable pub job_for : Retry → JobOpts → Call W (Job b.Quantity)
  unfolding rsync_command role_for to_job_name
  job_for r o w =
      let job_name = to_job_name o.source_pvc_name in
      let cmd = rsync_command (rsync_command_flags b w) in
      (do
        resources ← rsync_resource_requirements b
        (λ v. setup_service_account b r job_name o.namespace (role_for (rsync_openshift_scc b v)) v)
        λ v. (
          v,
          ok (
              restic_job b job_name o.namespace (add_job_labels o.labels)
                (rsync_pod o job_name cmd resources v)),
        ))
        w

  unfoldable pub start_job : Retry → List JobOption → Call W Text
  unfolding validate job_for
  start_job r opts = do
    o ← lift_result (apply_options opts no_opts)
    lift_result (validate o)
    job ← job_for r o
    unless_call is_already_exists same_error (b.create_job job)
    return (namespaced_name job.namespace job.name)

  unfoldable pub delete_named : Text → Text → Call W Unit
  delete_named namespace name = do
    unless_call is_not_found same_error (b.delete_job name namespace)
    unless_call is_not_found same_error (clean_service_account b name namespace)

  unfoldable pub delete_job : Text → Call W Unit
  unfolding delete_named
  delete_job = with_id b raise delete_named

  -- JobStatus of a job whose node is there; a completed one is reported without its condition.
  unfoldable pub job_status_of : Text → Text → Job b.Quantity → JobStatus F
  job_status_of namespace name job =
      let status = first_condition job.conditions in
      if is_job_failed job.conditions
      then driver_status b b.zero_percent
          (job_failed_text b "check %s/%s job for details: %s" namespace name) status
      else if is_job_completed job.conditions
      then driver_status b b.hundred_percent [] JobConditionType.unset
      else driver_status b b.zero_percent [] status

  unfoldable pub named_status : Text → Text → Call W (JobStatus F)
  unfolding job_status_of
  named_status namespace name = do
    job ← b.get_job name namespace
    wrap (node_error b namespace name) (job_node_exists b job)
    return (job_status_of namespace name job)

  unfoldable pub job_status : Text → Call W (JobStatus F)
  unfolding named_status
  job_status = with_id b (bad_id b) named_status

  abbrev pub driver : Retry → Driver W F
  driver r = record {
    name = Name.rsync;
    start_job = start_job r;
    delete_job = delete_job;
    job_status = job_status;
  }
