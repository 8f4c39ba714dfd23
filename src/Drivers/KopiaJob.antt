-- ===== src/Drivers/KopiaJob.antt =====
-- What the kopia drivers of pkg/drivers share: the pod that runs the executor, its certificate, and
-- the steps that read and delete a job.
use kdmp.Base.{
  List, [], ◌∷◌, ◌++◌, Text, codes, Error, errorf, ok, err, Call, format, is_not_found, String,
  true, false,
}
use kdmp.Base.Results.{return, ◌>>=◌}
use kdmp.Base.Strings.{join}
use kdmp.Drivers.{JobStatus, JobConditionType}
use kdmp.Drivers.Options.{JobOpts}
use kdmp.Jobs.{to_job_status, parse_job_id}
use kdmp.Jobs.Batch.{BatchServices, Job, PodSpec, VolumeMount, Volume, VolumeSource, Resources}
use kdmp.Jobs.Config.{
  kopia_executor_image, kopia_executor_image_secret, to_image_pull_secret, setting,
}
use kdmp.Jobs.Accounts.{skip_resource_annotations, unless_call}

abbrev pub cred_mount : VolumeMount
cred_mount = record {
  name = codes "cred-secret";
  mount_path = codes "/etc/cred-secret";
  read_only = true;
}

abbrev pub data_mount : VolumeMount
data_mount = record { name = codes "vol"; mount_path = codes "/data"; read_only = false }

abbrev cert_mount : VolumeMount
cert_mount = record {
  name = codes "tls-secret";
  mount_path = codes "/etc/tls-s3-cert";
  read_only = true;
}

abbrev pub cred_volume : Text → Volume
cred_volume name = record { name = codes "cred-secret"; source = VolumeSource.secret name }

abbrev pub data_volume : VolumeSource → Volume
data_volume source = record { name = codes "vol"; source = source }

-- strings.Join(args, " ").
abbrev pub command_line : List Text → Text
command_line args = join (codes " ") args

-- `if drivers.CertFilePath != ""`: the mount, the volume and the variable of the certificate.
unfoldable pub with_cert : {Q : Type 0} → Text → Text → PodSpec Q → PodSpec Q
with_cert [] secret_name spec = spec
with_cert (_ ∷ _) secret_name spec = record spec {
  volume_mounts = spec.volume_mounts ++ (cert_mount ∷ []);
  volumes =
      spec.volumes
      ++ (record { name = codes "tls-secret"; source = VolumeSource.secret secret_name } ∷ []);
  env = (codes "SSL_CERT_DIR", codes "/etc/tls-s3-cert") ∷ [];
}

module _ {W F : Type 0} (b : BatchServices W F) where
  abbrev pub driver_status : F → Text → JobConditionType → JobStatus F
  driver_status = to_job_status b.is_hundred b.zero_percent

  -- The pod of an executor: its account, its node, the command line, and the container's
  -- resources, mounts and volumes. The image's secret is read before the image.
  unfoldable pub executor_pod :
      JobOpts
      → Text
      → Text
      → Text
      → Resources b.Quantity
      → List VolumeMount
      → List Volume
      → Call W (PodSpec b.Quantity)
  executor_pod o account node cmd resources mounts volumes = do
    secret ← setting b (kopia_executor_image_secret b o.job_config_map o.job_config_map_ns)
    image ← setting b (kopia_executor_image b o.job_config_map o.job_config_map_ns)
    λ w. (
      w,
      ok (
          with_cert (b.cert_file_path w) o.cert_secret_name (record {
            restart_policy = codes "OnFailure";
            image_pull_secrets = to_image_pull_secret secret;
            service_account_name = account;
            node_name = node;
            container_name = codes "kopiaexecutor";
            image = image;
            image_pull_policy = codes "Always";
            command = codes "/bin/sh" ∷ codes "-x" ∷ codes "-c" ∷ cmd ∷ [];
            resources = resources;
            volume_mounts = mounts;
            env = [];
            volumes = volumes;
          })),
    )

  abbrev pub executor_job : Text → Text → List (Text × Text) → PodSpec b.Quantity → Job b.Quantity
  executor_job name namespace labels spec = record {
    name = name;
    namespace = namespace;
    annotations = skip_resource_annotations;
    labels = labels;
    backoff_limit = 3;
    spec = spec;
    conditions = [];
  }

  -- `fmt.Errorf(msg, namespace, name, err)`.
  abbrev pub named_error : String → Text → Text → Error → Error
  named_error msg namespace name e = errorf (format msg (namespace ∷ name ∷ e.text ∷ []))

  abbrev pub node_error : Text → Text → Error → Error
  node_error = named_error "failed to fetch the node info tied to the job %s/%s: %v"

  -- batch.Instance().DeleteJob, where a missing job is none of its errors.
  abbrev pub delete_plain : (Error → Error) → Text → Text → Call W Unit
  delete_plain f name namespace = unless_call is_not_found f (b.delete_job name namespace)

  -- A method of an id, after utils.ParseJobID.
  unfoldable pub with_id :
      {A : Type 0} → (Error → Call W A) → (Text → Text → Call W A) → Text → Call W A
  with_id fail f id = elim (parse_job_id id) [
    | ok (namespace, name) ↦ f namespace name
    | err e ↦ fail e
  ]

  -- What every JobStatus says of an id that ParseJobID refuses.
  abbrev pub bad_id : Error → Call W (JobStatus F)
  bad_id e = return (driver_status b.zero_percent e.text JobConditionType.unset)

  abbrev pub job_failed_text : String → Text → Text → Text
  job_failed_text msg namespace name =
      format msg (namespace ∷ name ∷ codes "data transfer job failed" ∷ [])
