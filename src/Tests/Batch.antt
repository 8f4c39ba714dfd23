-- ===== src/Tests/Batch.antt =====
-- The drivers' theorems at one input: a cluster with one namespace, whose world is the list of its jobs.
mod Restic
use kdmp.Base.{
  ℕ, Bool, true, false, ◌&&◌, List, [], ◌∷◌, ◌++◌, Text, codes, Result, ok, err, Error, errorf,
  Call, ◌≡◌, refl, ap, ◌==◌, text_eq, if◌then◌else◌, ◌⊎◌, not,
}
use kdmp.Api.{VolumeBackup}
use kdmp.Drivers.{JobState, JobStatus, JobConditionType, apply_options}
use kdmp.Base.Int.{pos, leb_ℤ}
use kdmp.Base.Strings.{split}
use kdmp.Drivers.Name
use kdmp.Drivers.Options.{JobOpts, JobOption, no_opts}
use kdmp.Jobs.{JobCondition}
use kdmp.Jobs.Batch.{BatchServices, Job}
use kdmp.Jobs.Laws.{Free}
use kdmp.JobRateLimit
use kdmp.JobRateLimit.Count.{Listed, can_job_be_scheduled-Listed}
use kdmp.Drivers.KopiaBackup
use kdmp.Drivers.KopiaBackup.Start.{Made, start_job-Made}
use kdmp.Drivers.KopiaBackup.Status.{Done, job_status-Done}
use kdmp.Drivers.KopiaBackup.Command.{to_repo_name-injective}
use kdmp.Drivers.KopiaBackup.Arguments.{flag_words, registered}
use kdmp.Tests.Services.{missing, unavailable, twice}

-- A job by its name, in any namespace.
unfoldable find_job : Text → List (Job Text) → Result (Job Text)
find_job name [] = err missing
find_job name (j ∷ js) = let rest = find_job name js in if text_eq j.name name then ok j else rest

abbrev jobs_cluster : VolumeBackup ℕ → BatchServices (List (Job Text)) ℕ
jobs_cluster vb = record {
  Quantity = Text;
  parse_quantity = ok;
  zero_percent = 0;
  hundred_percent = 100;
  is_hundred = λ p. p == 100;
  getenv = λ key w. [];
  git_version = codes "1.0";
  cert_file_path = λ w. [];
  get_config_map = λ name ns w. (w, ok []);
  get_job = λ name ns w. (w, find_job name w);
  list_all_jobs = λ ns selector w. (w, ok w);
  create_job = λ job w. (job ∷ w, ok tt);
  delete_job = λ name ns w. (w, ok tt);
  delete_job_with_force = λ name ns w. (w, ok tt);
  create_cron_job = λ job w. (w, ok tt);
  delete_cron_job = λ name ns w. (w, ok tt);
  list_namespaces = λ w. (w, codes "app" ∷ []);
  get_job_pods = λ ns name w. (w, ok []);
  get_pods_using_pvc = λ name ns w. (w, ok []);
  force_delete_pod = λ name ns w. (w, ok tt);
  get_nodes = λ w. (w, ok []);
  is_node_ready = λ name w. (w, ok tt);
  get_pvc = λ name ns w. (w, err missing);
  get_pv_is_csi = λ name w. (w, err missing);
  get_volume_backup = λ name ns w. (w, ok vb);
  delete_volume_backup = λ name ns w. (w, ok tt);
  create_volume_backup_delete = λ vbd w. (w, ok tt);
  delete_volume_backup_delete = λ name ns w. (w, ok tt);
  get_secret = λ name ns w. (
    w,
    ok (record { name = name; namespace = ns; labels = []; annotations = []; contents = [] }),
  );
  create_secret = λ secret w. (w, ok tt);
  update_secret = λ secret w. (w, ok tt);
  delete_secret = λ name ns w. (w, ok tt);
  create_role = λ name ns annotations rules w. (w, ok tt);
  create_role_binding = λ name ns annotations w. (w, ok tt);
  create_service_account = λ name ns annotations w. (w, ok tt);
  get_service_account_secrets = λ name ns w. (w, ok (codes "token" ∷ []));
  delete_role = λ name ns w. (w, ok tt);
  delete_role_binding = λ name ns w. (w, ok tt);
  delete_service_account = λ name ns w. (w, ok tt);
}

abbrev full_backup : VolumeBackup ℕ
full_backup = record {
  name = codes "export-1";
  namespace = codes "app";
  backup_location = record {
    api_version = [];
    kind = [];
    namespace = codes "app";
    name = codes "s3";
  };
  repository = codes "app-db";
  progress_percentage = 100;
  total_bytes = 4096;
  total_bytes_processed = 4096;
  snapshot_id = codes "k1";
  last_known_error = [];
}

abbrev cluster : BatchServices (List (Job Text)) ℕ
cluster = jobs_cluster full_backup

abbrev opts : JobOpts
opts = record no_opts {
  namespace = codes "app";
  data_export_name = codes "export-1";
  source_pvc_name = codes "db";
  repo_pvc_name = codes "db";
  backup_location_name = codes "s3";
  backup_location_namespace = codes "app";
}

-- One option that sets all of them.
set_opts : JobOption
set_opts o = ok opts

to_repo_name-injective_example :
    (Free b'-' (codes "app")
      → Free b'-' (codes "web")
      → KopiaBackup.to_repo_name (codes "db") (codes "app")
        ≡ KopiaBackup.to_repo_name (codes "log") (codes "web")
      → (codes "db" ≡ codes "log") × (codes "app" ≡ codes "web"))
    × (KopiaBackup.to_repo_name (codes "db") (codes "app-eu")
        ≡ KopiaBackup.to_repo_name (codes "eu-db") (codes "app"))
to_repo_name-injective_example =
    to_repo_name-injective (codes "db") (codes "log") (codes "app") (codes "web") (codes "eu")

-- A flag's name, without its two dashes.
flag_name : Text → Text
flag_name (a ∷ b ∷ name) = name
flag_name t = []

-- Each flag with the word after it.
unfoldable read_flags : List Text → List (Text × Text)
unfolding flag_name
read_flags [] = []
read_flags (t ∷ []) = []
read_flags (t ∷ value ∷ words) = (flag_name t, value) ∷ read_flags words

abbrev compressed_opts : JobOpts
compressed_opts = record opts { compression = codes "zstd" }

scheduled : JobRateLimit.can_job_be_scheduled cluster Name.kopia_backup [] ≡ ([], ok true)
unfolding JobRateLimit.can_job_be_scheduled JobRateLimit.get_job_count_by_type
    JobRateLimit.count_jobs JobRateLimit.job_limit_by_type JobRateLimit.get_job_limit_configmap_key
    text_eq kdmp.Jobs.Config.get_config_value JobRateLimit.limit_of kdmp.Base.Strings.lookup_text
    JobRateLimit.get_default_job_limit JobRateLimit.less_completed
scheduled = refl

can_job_be_scheduled-Listed_example :
    (w : List (Job Text)) × (count : ℕ) × Listed cluster
      (JobRateLimit.driver_selector Name.kopia_backup)
      (codes "app" ∷ [])
      []
      w
      count
    × ([] ≡ (JobRateLimit.job_limit_by_type cluster Name.kopia_backup w).0)
    × (true
        ≡ not (leb_ℤ (JobRateLimit.job_limit_by_type cluster Name.kopia_backup w).1 (pos count)))
can_job_be_scheduled-Listed_example =
    can_job_be_scheduled-Listed cluster Name.kopia_backup [] [] true scheduled

abbrev after : List (Job Text)
after = (KopiaBackup.start_job cluster twice (set_opts ∷ []) []).0

run_id : (KopiaBackup.start_job cluster twice (set_opts ∷ []) []).1 ≡ ok (codes "app/export-1")
unfolding KopiaBackup.start_job apply_options set_opts KopiaBackup.start_absent
    JobRateLimit.is_job_already_present find_job JobRateLimit.is_job_for_pvc_already_running
    KopiaBackup.start_available JobRateLimit.can_job_be_scheduled JobRateLimit.get_job_count_by_type
    JobRateLimit.count_jobs KopiaBackup.start_scheduled JobRateLimit.job_limit_by_type
    JobRateLimit.get_job_limit_configmap_key text_eq JobRateLimit.limit_of
    kdmp.Jobs.Config.get_config_value kdmp.Base.Strings.lookup_text kdmp.Base.Decimals.atoi
    kdmp.Base.Strings.cons_head kdmp.Base.Strings.insert_text kdmp.Base.Strings.is_space
    kdmp.Base.Strings.join split kdmp.Base.Strings.trim_both kdmp.Base.Strings.trim_left
    kdmp.Base.Strings.trim_space kdmp.Base.format KopiaBackup.add_job_labels KopiaBackup.backup_args
    KopiaBackup.build_job KopiaBackup.create_backup KopiaBackup.job_for KopiaBackup.job_for_pods
    KopiaBackup.to_repo_name KopiaBackup.validate KopiaBackup.with_compression
    kdmp.Drivers.KopiaJob.executor_pod kdmp.Drivers.KopiaJob.with_cert
    JobRateLimit.get_default_job_limit JobRateLimit.less_completed JobRateLimit.pvc_selector
    kdmp.Jobs.Accounts.setup_service_account kdmp.Jobs.Accounts.create_account
    kdmp.Jobs.Accounts.token_task kdmp.Jobs.Accounts.token_attempt kdmp.Jobs.Accounts.mark_token
    kdmp.Jobs.Accounts.unless kdmp.Jobs.Config.config_value kdmp.Jobs.Config.kopia_executor_image
    kdmp.Jobs.Config.kopia_executor_image_secret kdmp.Jobs.Config.kopia_resource_requirements
    kdmp.Jobs.Config.or_default kdmp.Jobs.Config.to_image_pull_secret
    kdmp.Jobs.Config.to_resource_requirements kdmp.Jobs.Config.trimmed_config_value
    kdmp.Jobs.is_job_completed kdmp.Jobs.namespaced_name kdmp.Tests.Services.next
run_id = refl

run_started :
    KopiaBackup.start_job cluster twice (set_opts ∷ []) [] ≡ (after, ok (codes "app/export-1"))
run_started = ap (λ r. (after, r)) run_id

start_job-Made_example :
    (o : JobOpts) × (apply_options (set_opts ∷ []) no_opts ≡ ok o)
    × (((JobRateLimit.is_job_already_present cluster o.data_export_name o.namespace []).1 ≡ true)
          × (after
              ≡ (JobRateLimit.is_job_already_present cluster o.data_export_name o.namespace []).0)
        ⊎ ((JobRateLimit.is_job_already_present cluster o.data_export_name o.namespace []).1
            ≡ false)
          × Made cluster twice o
              (JobRateLimit.is_job_already_present cluster o.data_export_name o.namespace []).0
              after)
    × (codes "app/export-1" ≡ kdmp.Jobs.namespaced_name o.namespace o.data_export_name)
start_job-Made_example =
    start_job-Made cluster twice (set_opts ∷ []) [] after (codes "app/export-1") run_started

abbrev export_job : Job Text
export_job = record {
  name = codes "export-1";
  namespace = codes "app";
  annotations = [];
  labels = [];
  backoff_limit = 3;
  spec = record {
    restart_policy = [];
    image_pull_secrets = [];
    service_account_name = [];
    node_name = [];
    container_name = [];
    image = [];
    image_pull_policy = [];
    command = [];
    resources = record { request_cpu = []; request_memory = []; limit_cpu = []; limit_memory = [] };
    volume_mounts = [];
    env = [];
    volumes = [];
  };
  conditions = [];
}

abbrev finished : JobStatus ℕ
finished = record {
  progress_percents = 100;
  state = JobState.completed;
  reason = [];
  status = JobConditionType.unset;
}

reported :
    KopiaBackup.job_status cluster (codes "app/export-1") (export_job ∷ [])
    ≡ (export_job ∷ [], ok finished)
unfolding KopiaBackup.job_status kdmp.Drivers.KopiaJob.with_id kdmp.Jobs.parse_job_id
    kdmp.Base.Strings.split_once KopiaBackup.named_status find_job text_eq
    kdmp.Jobs.State.job_node_exists KopiaBackup.job_status_of kdmp.Jobs.State.job_or_node_failed
    kdmp.Jobs.is_job_or_node_failed kdmp.Jobs.is_job_failed KopiaBackup.transfer_status
    KopiaBackup.read_status kdmp.Jobs.to_job_status kdmp.Jobs.State.first_condition
reported = refl

job_status-Done_example :
    (namespace : Text) × (name : Text) × (kdmp.Jobs.parse_job_id (codes "app/export-1")
      ≡ ok (namespace, name))
    × Done cluster namespace name (export_job ∷ []) (export_job ∷ [])
job_status-Done_example =
    job_status-Done cluster (codes "app/export-1") (export_job ∷ []) (export_job ∷ []) finished refl
      reported refl
