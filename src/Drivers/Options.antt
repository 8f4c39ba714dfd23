-- ===== src/Drivers/Options.antt =====
-- JobOpts and the functional options of pkg/drivers/options.go.
use kdmp.Base.{List, [], Text, errorf, Result, ok, err, is_empty, format, if◌then◌else◌}
use kdmp.Base.Strings.{trim_space}

pub record JobOpts : Type 0 where
  pub source_pvc_name : Text
  pub source_pvc_namespace : Text
  pub destination_pvc_name : Text
  pub namespace : Text
  pub backup_location_name : Text
  pub backup_location_namespace : Text
  pub volume_backup_name : Text
  pub volume_backup_namespace : Text
  pub volume_backup_delete_name : Text
  pub volume_backup_delete_namespace : Text
  pub data_export_name : Text
  pub snapshot_id : Text
  pub cred_secret_name : Text
  pub cred_secret_namespace : Text
  pub maintenance_status_name : Text
  pub maintenance_status_namespace : Text
  pub job_name : Text
  pub job_namespace : Text
  pub service_account_name : Text
  pub backup_object_name : Text
  pub backup_object_uid : Text
  pub labels : List (Text × Text)
  pub cert_secret_name : Text
  pub cert_secret_namespace : Text
  pub maintenance_type : Text
  pub repo_pvc_name : Text
  pub compression : Text
  pub pod_data_path : Text
  pub job_config_map : Text
  pub job_config_map_ns : Text

-- `drivers.JobOpts{}`.
abbrev pub no_opts : JobOpts
no_opts = record {
  source_pvc_name = [];
  source_pvc_namespace = [];
  destination_pvc_name = [];
  namespace = [];
  backup_location_name = [];
  backup_location_namespace = [];
  volume_backup_name = [];
  volume_backup_namespace = [];
  volume_backup_delete_name = [];
  volume_backup_delete_namespace = [];
  data_export_name = [];
  snapshot_id = [];
  cred_secret_name = [];
  cred_secret_namespace = [];
  maintenance_status_name = [];
  maintenance_status_namespace = [];
  job_name = [];
  job_namespace = [];
  service_account_name = [];
  backup_object_name = [];
  backup_object_uid = [];
  labels = [];
  cert_secret_name = [];
  cert_secret_namespace = [];
  maintenance_type = [];
  repo_pvc_name = [];
  compression = [];
  pod_data_path = [];
  job_config_map = [];
  job_config_map_ns = [];
}

abbrev pub JobOption : Type 0
JobOption = JobOpts → Result JobOpts

-- The value trimmed, or an error where nothing is left of it.
unfoldable pub required : Text → (Text → JobOpts) → Text → Result JobOpts
required msg put value =
    if is_empty (trim_space value) then err (errorf msg) else ok (put (trim_space value))

unfoldable pub with_backup_object_name : Text → JobOption
unfolding required
with_backup_object_name name opts =
    required (format "backupObject name should be set" [])
      (λ t. record opts { backup_object_name = t }) name

unfoldable pub with_backup_object_uid : Text → JobOption
unfolding required
with_backup_object_uid uid opts =
    required (format "backupObject uid should be set" [])
      (λ t. record opts { backup_object_uid = t }) uid

unfoldable pub with_job_name : Text → JobOption
unfolding required
with_job_name name opts =
    required (format "job name should be set" []) (λ t. record opts { job_name = t }) name

unfoldable pub with_job_namespace : Text → JobOption
unfolding required
with_job_namespace namespace opts =
    required (format "job namespace should be set" []) (λ t. record opts { job_namespace = t })
      namespace

unfoldable pub with_service_account_name : Text → JobOption
unfolding required
with_service_account_name service_account_name opts =
    required (format "serviceAccountname should be set" [])
      (λ t. record opts { service_account_name = t }) service_account_name

unfoldable pub with_snapshot_id : Text → JobOption
unfolding required
with_snapshot_id snapshot_id opts =
    required (format "snapshotID should be set" []) (λ t. record opts { snapshot_id = t })
      snapshot_id

unfoldable pub with_maintenance_status_name : Text → JobOption
unfolding required
with_maintenance_status_name name opts =
    required (format "maintenance status CR name should be set" [])
      (λ t. record opts { maintenance_status_name = t }) name

unfoldable pub with_maintenance_status_namespace : Text → JobOption
unfolding required
with_maintenance_status_namespace namespace opts =
    required (format "maintenance status CR namepace should be set" [])
      (λ t. record opts { maintenance_status_namespace = t }) namespace

unfoldable pub with_cred_secret_name : Text → JobOption
unfolding required
with_cred_secret_name name opts =
    required (format "cred secret name should be set" [])
      (λ t. record opts { cred_secret_name = t }) name

unfoldable pub with_cred_secret_namespace : Text → JobOption
unfolding required
with_cred_secret_namespace namespace opts =
    required (format "cred secret namespace should be set" [])
      (λ t. record opts { cred_secret_namespace = t }) namespace

unfoldable pub with_source_pvc : Text → JobOption
unfolding required
with_source_pvc name opts =
    required (format "source pvc name should be set" []) (λ t. record opts { source_pvc_name = t })
      name

unfoldable pub with_source_pvc_namespace : Text → JobOption
unfolding required
with_source_pvc_namespace namespace opts =
    required (format "source pvc namespace should be set" [])
      (λ t. record opts { source_pvc_namespace = t }) namespace

unfoldable pub with_destination_pvc : Text → JobOption
unfolding required
with_destination_pvc name opts =
    required (format "destination pvc name should be set" [])
      (λ t. record opts { destination_pvc_name = t }) name

unfoldable pub with_repo_pvc : Text → JobOption
unfolding required
with_repo_pvc name opts =
    required (format "repo pvc name should be set" []) (λ t. record opts { repo_pvc_name = t }) name

unfoldable pub with_namespace : Text → JobOption
unfolding required
with_namespace ns opts =
    required (format "namespace should be set" []) (λ t. record opts { namespace = t }) ns

unfoldable pub with_backup_location_name : Text → JobOption
unfolding required
with_backup_location_name name opts =
    required (format "backuplocation name should be set" [])
      (λ t. record opts { backup_location_name = t }) name

unfoldable pub with_backup_location_namespace : Text → JobOption
unfolding required
with_backup_location_namespace ns opts =
    required (format "backuplocation namespace should be set" [])
      (λ t. record opts { backup_location_namespace = t }) ns

unfoldable pub with_volume_backup_name : Text → JobOption
unfolding required
with_volume_backup_name name opts =
    required (format "volumebackup name should be set" [])
      (λ t. record opts { volume_backup_name = t }) name

unfoldable pub with_volume_backup_namespace : Text → JobOption
unfolding required
with_volume_backup_namespace ns opts =
    required (format "volumebackup namespace should be set" [])
      (λ t. record opts { volume_backup_namespace = t }) ns

unfoldable pub with_volume_backup_delete_name : Text → JobOption
unfolding required
with_volume_backup_delete_name name opts =
    required (format "volumeBackupDelete name should be set" [])
      (λ t. record opts { volume_backup_delete_name = t }) name

unfoldable pub with_volume_backup_delete_namespace : Text → JobOption
unfolding required
with_volume_backup_delete_namespace ns opts =
    required (format "volumeBackupDelete namespace should be set" [])
      (λ t. record opts { volume_backup_delete_namespace = t }) ns

unfoldable pub with_labels : List (Text × Text) → JobOption
with_labels l opts = ok (record opts { labels = l })

unfoldable pub with_data_export_name : Text → JobOption
with_data_export_name name opts =
    if is_empty (trim_space name)
    then err (errorf (format "dataexport namespace should be set" []))
    else ok (record opts { data_export_name = name })

unfoldable pub with_cert_secret_name : Text → JobOption
with_cert_secret_name name opts = ok (record opts { cert_secret_name = name })

unfoldable pub with_cert_secret_namespace : Text → JobOption
with_cert_secret_namespace namespace opts = ok (record opts { cert_secret_namespace = namespace })

unfoldable pub with_maintenance_type : Text → JobOption
with_maintenance_type maintenance_type opts =
    ok (record opts { maintenance_type = maintenance_type })

unfoldable pub with_compression_type : Text → JobOption
with_compression_type compression_type opts = ok (record opts { compression = compression_type })

unfoldable pub with_pod_datapath_type : Text → JobOption
with_pod_datapath_type pod_data_path opts = ok (record opts { pod_data_path = pod_data_path })

unfoldable pub with_job_config_map : Text → JobOption
with_job_config_map job_config_map opts = ok (record opts { job_config_map = job_config_map })

unfoldable pub with_job_config_map_ns : Text → JobOption
with_job_config_map_ns job_config_map_ns opts =
    ok (record opts { job_config_map_ns = job_config_map_ns })
