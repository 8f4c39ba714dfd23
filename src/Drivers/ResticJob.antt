-- ===== src/Drivers/ResticJob.antt =====
-- What the restic drivers of pkg/drivers share: the secret with the password, the pod that runs the
-- executor, its account's role, and the deletion of what was created.
use kdmp.Base.{
  true, List, [], ◌∷◌, String, Text, codes, Error, errorf, Call, format, is_already_exists,
  is_not_found,
}
use kdmp.Base.Results.{raise, ◌>>◌}
use kdmp.Drivers.KopiaJob.{data_mount, data_volume, with_id}
use kdmp.Services.{Secret}
use kdmp.Jobs.Batch.{
  BatchServices, Job, PodSpec, PolicyRule, VolumeMount, Volume, VolumeSource, Resources,
}
use kdmp.Jobs.Config.{restic_executor_image, restic_executor_image_secret, to_image_pull_secret}
use kdmp.Jobs.Accounts.{clean_service_account, unless_call}

abbrev pub role_for : List PolicyRule
role_for =
    record {
      api_groups = codes "stork.libopenstorage.org" ∷ [];
      resources = codes "backuplocations" ∷ [];
      resource_names = [];
      verbs = codes "get" ∷ codes "list" ∷ [];
    }
    ∷ record {
      api_groups = codes "kdmp.portworx.com" ∷ [];
      resources = codes "volumebackups" ∷ [];
      resource_names = [];
      verbs = codes "*" ∷ [];
    }
    ∷ []

-- The secret of StartJob.
abbrev pub password_secret : Text → Text → Secret
password_secret name namespace = record {
  name = name;
  namespace = namespace;
  labels = [];
  annotations = [];
  contents = (codes "secret", codes "resticsecret") ∷ [];
}

abbrev secret_mount : VolumeMount
secret_mount = record {
  name = codes "secret";
  mount_path = codes "/etc/resticsecret";
  read_only = true;
}

abbrev secret_volume : Text → Volume
secret_volume name = record { name = codes "secret"; source = VolumeSource.secret name }

-- An error that is passed on as it is.
abbrev pub same_error : Error → Error
same_error e = e

module _ {W F : Type 0} (b : BatchServices W F) where
  -- CreateSecret, with the message for a failure.
  unfoldable pub create_password : String → Text → Text → Call W Unit
  create_password msg name namespace =
      unless_call is_already_exists (λ e. errorf (format msg (e.text ∷ [])))
        (b.create_secret (password_secret name namespace))

  -- The pod of an executor: its account, its node, the command line, its resources, the volume with
  -- the data and the secret with the password.
  abbrev pub restic_pod :
      Text → Text → Text → Resources b.Quantity → VolumeSource → Text → W → PodSpec b.Quantity
  restic_pod account node cmd resources source secret_name w = record {
    restart_policy = codes "OnFailure";
    image_pull_secrets = to_image_pull_secret (restic_executor_image_secret b w);
    service_account_name = account;
    node_name = node;
    container_name = codes "resticexecutor";
    image = restic_executor_image b w;
    image_pull_policy = [];
    command = codes "/bin/sh" ∷ codes "-x" ∷ codes "-c" ∷ cmd ∷ [];
    resources = resources;
    volume_mounts = data_mount ∷ secret_mount ∷ [];
    env = [];
    volumes = data_volume source ∷ secret_volume secret_name ∷ [];
  }

  abbrev pub restic_job : Text → Text → List (Text × Text) → PodSpec b.Quantity → Job b.Quantity
  restic_job name namespace labels spec = record {
    name = name;
    namespace = namespace;
    annotations = [];
    labels = labels;
    backoff_limit = 3;
    spec = spec;
    conditions = [];
  }

  unfoldable pub delete_restic : Text → Text → Call W Unit
  delete_restic namespace name = do
    unless_call is_not_found same_error (b.delete_secret name namespace)
    clean_service_account b name namespace
    unless_call is_not_found same_error (b.delete_job name namespace)

  -- DeleteJob of both drivers.
  unfoldable pub delete_job : Text → Call W Unit
  unfolding delete_restic
  delete_job = with_id b raise delete_restic
