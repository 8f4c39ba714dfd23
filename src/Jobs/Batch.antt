-- ===== src/Jobs/Batch.antt =====
-- The batch and core objects that the transfer drivers and pkg/jobratelimit work with, and the
-- services that they call, as parameters: sched-ops' batch, core, rbac and kdmp clients, the
-- environment, and resource.ParseQuantity.
use kdmp.Base.{ℕ, Bool, List, Text, Result, Call}
use kdmp.Api.{Pvc, VolumeBackup}
use kdmp.Services.{Secret}
use kdmp.Jobs.{JobCondition}

-- corev1.ContainerStatus: whether State.Waiting and State.Running are set.
pub record ContainerStatus : Type 0 where
  pub waiting : Bool
  pub running : Bool
  pub restart_count : ℕ

pub record Pod : Type 0 where
  pub name : Text
  pub namespace : Text
  pub uid : Text
  pub node_name : Text
  pub phase : Text
  pub container_statuses : List ContainerStatus

pub record VolumeMount : Type 0 where
  pub name : Text
  pub mount_path : Text
  pub read_only : Bool

pub data VolumeSource : Type 0 where
  claim : Text → VolumeSource
  host_path : Text → VolumeSource
  secret : Text → VolumeSource

pub record Volume : Type 0 where
  pub name : Text
  pub source : VolumeSource

-- corev1.ResourceRequirements, by the four entries that the source sets.
pub record Resources (Q : Type 0) : Type 0 where
  pub request_cpu : Q
  pub request_memory : Q
  pub limit_cpu : Q
  pub limit_memory : Q

-- corev1.PodSpec with its one container.
pub record PodSpec (Q : Type 0) : Type 0 where
  pub restart_policy : Text
  pub image_pull_secrets : List Text
  pub service_account_name : Text
  pub node_name : Text
  pub container_name : Text
  pub image : Text
  pub image_pull_policy : Text
  pub command : List Text
  pub resources : Resources Q
  pub volume_mounts : List VolumeMount
  pub env : List (Text × Text)
  pub volumes : List Volume

-- batchv1.Job. The labels are also those of the pod's template.
pub record Job (Q : Type 0) : Type 0 where
  pub name : Text
  pub namespace : Text
  pub annotations : List (Text × Text)
  pub labels : List (Text × Text)
  pub backoff_limit : ℕ
  pub spec : PodSpec Q
  pub conditions : List JobCondition

-- batchv1beta1.CronJob.
pub record CronJob (Q : Type 0) : Type 0 where
  pub schedule : Text
  pub successful_jobs_history_limit : ℕ
  pub failed_jobs_history_limit : ℕ
  pub job : Job Q

-- kdmpapi.VolumeBackupDelete.
pub record VolumeBackupDelete : Type 0 where
  pub name : Text
  pub namespace : Text
  pub annotations : List (Text × Text)
  pub labels : List (Text × Text)
  pub pvc_name : Text
  pub snapshot_id : Text

-- rbacv1.PolicyRule.
pub record PolicyRule : Type 0 where
  pub api_groups : List Text
  pub resources : List Text
  pub resource_names : List Text
  pub verbs : List Text

-- Objects are meant by name and namespace, in this order; pods of a job by namespace and the job's
-- name. `list_namespaces` gives the items of the list that ListNamespaces returns, which is empty
-- where it reports an error. A service account's secrets are empty where they are nil.
pub record BatchServices (W F : Type 0) : Type 1 where
  pub Quantity : Type 0
  pub parse_quantity : Text → Result Quantity
  pub zero_percent : F
  pub hundred_percent : F
  pub is_hundred : F → Bool
  pub getenv : Text → W → Text
  -- version.Get().GitVersion
  pub git_version : Text
  -- drivers.CertFilePath, which createCertificateSecret sets.
  pub cert_file_path : W → Text
  pub get_config_map : Text → Text → Call W (List (Text × Text))
  pub get_job : Text → Text → Call W (Job Quantity)
  -- By namespace and label selector.
  pub list_all_jobs : Text → Text → Call W (List (Job Quantity))
  pub create_job : Job Quantity → Call W Unit
  pub delete_job : Text → Text → Call W Unit
  pub delete_job_with_force : Text → Text → Call W Unit
  pub create_cron_job : CronJob Quantity → Call W Unit
  pub delete_cron_job : Text → Text → Call W Unit
  pub list_namespaces : W → W × List Text
  pub get_job_pods : Text → Text → Call W (List Pod)
  pub get_pods_using_pvc : Text → Text → Call W (List Pod)
  pub force_delete_pod : Text → Text → Call W Unit
  pub get_nodes : Call W (List Text)
  pub is_node_ready : Text → Call W Unit
  pub get_pvc : Text → Text → Call W Pvc
  -- Whether the volume has a CSI source.
  pub get_pv_is_csi : Text → Call W Bool
  pub get_volume_backup : Text → Text → Call W (VolumeBackup F)
  pub delete_volume_backup : Text → Text → Call W Unit
  pub create_volume_backup_delete : VolumeBackupDelete → Call W Unit
  pub delete_volume_backup_delete : Text → Text → Call W Unit
  pub get_secret : Text → Text → Call W Secret
  pub create_secret : Secret → Call W Unit
  pub update_secret : Secret → Call W Unit
  pub delete_secret : Text → Text → Call W Unit
  -- The name, the namespace, the annotations and the rules.
  pub create_role : Text → Text → List (Text × Text) → List PolicyRule → Call W Unit
  -- Of the role, with the service account of the same name as its subject.
  pub create_role_binding : Text → Text → List (Text × Text) → Call W Unit
  pub create_service_account : Text → Text → List (Text × Text) → Call W Unit
  pub get_service_account_secrets : Text → Text → Call W (List Text)
  pub delete_role : Text → Text → Call W Unit
  pub delete_role_binding : Text → Text → Call W Unit
  pub delete_service_account : Text → Text → Call W Unit
