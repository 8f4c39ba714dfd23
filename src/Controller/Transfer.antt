-- ===== src/Controller/Transfer.antt =====
-- The transfer stages of Controller.sync in reconcile.go: the job is started, then followed.
mod Progress
unfoldable pub use Progress.*
use kdmp.Base.{
  Bool, true, false, ◌||◌, none, some, Option, ok, err, List, [], ◌∷◌, Text, codes, Error, errorf,
  Call, format, Result, ErrorKind, job_already_running, out_of_job_resources, is_empty, text_eq,
  if◌then◌else◌,
}
use kdmp.Base.Strings.{lookup_text}
use kdmp.Api.{DataExport, Pvc, Stage, Status}
use kdmp.Services.{Cluster, Retry}
use kdmp.Drivers.{Driver}
use kdmp.Drivers.Name
use kdmp.Drivers.Options.{
  JobOption, with_source_pvc, with_namespace, with_destination_pvc, with_labels,
  with_backup_location_name, with_backup_location_namespace, with_volume_backup_name,
  with_volume_backup_namespace, with_repo_pvc, with_data_export_name, with_cert_secret_name,
  with_cert_secret_namespace, with_compression_type, with_pod_datapath_type, with_job_config_map,
  with_job_config_map_ns,
}
use kdmp.Controller.Flow.{
  no_change, to_stage, to_status, Verdict, write, quit, crash, fail_with, Act, Exit, attempt,
  finish, pure, ◌>>=◌, ◌>>◌,
}
use kdmp.Controller.Names.{get_repo_pvc_name}
use kdmp.Controller.Secrets.{create_certificate_secret, create_credentials_secret}
use kdmp.Controller.Checks.{create_pvc}
use kdmp.Controller.Checks.Mounts.{check_pvc_ignoring_job_mounts}
use kdmp.Controller.Cleanup.{cert_secret_name}
use kdmp.Controller.Snapshot.{next_stage}

abbrev pub kdmp_configmap_name : Text
kdmp_configmap_name = codes "kdmp-config"

abbrev pub kdmp_configmap_namespace : Text
kdmp_configmap_namespace = codes "kube-system"

abbrev pub default_compresion : Text
default_compresion = codes "s2-parallel-8"

-- The options that startTransferJob gives to a driver, by the driver's name.
unfoldable pub transfer_options :
    Text → Text → Text → DataExport → Text → Text → Text → Option (List JobOption)
transfer_options name src_pvc_name compression_type de pod_data_path config_map config_map_ns =
    if text_eq name Name.rsync
    then some (
        with_source_pvc src_pvc_name
        ∷ with_namespace dst.namespace
        ∷ with_destination_pvc dst.name
        ∷ with_labels de.labels
        ∷ [])
    else if text_eq name Name.restic_backup
    then some (
        with_source_pvc src_pvc_name
        ∷ with_namespace dst.namespace
        ∷ with_backup_location_name dst.name
        ∷ with_backup_location_namespace dst.namespace
        ∷ with_labels de.labels
        ∷ [])
    else if text_eq name Name.restic_restore
    then some (
        with_source_pvc src_pvc_name
        ∷ with_destination_pvc dst.name
        ∷ with_namespace src.namespace
        ∷ with_volume_backup_name src.name
        ∷ with_volume_backup_namespace src.namespace
        ∷ with_labels de.labels
        ∷ [])
    else if text_eq name Name.kopia_backup
    then some (
        with_source_pvc src_pvc_name
        ∷ with_repo_pvc (get_repo_pvc_name de src_pvc_name)
        ∷ with_namespace src.namespace
        ∷ with_backup_location_name dst.name
        ∷ with_backup_location_namespace dst.namespace
        ∷ with_labels de.labels
        ∷ with_data_export_name de.name
        ∷ with_cert_secret_name cert_secret_name
        ∷ with_cert_secret_namespace src.namespace
        ∷ with_compression_type compression_type
        ∷ with_pod_datapath_type pod_data_path
        ∷ with_job_config_map config_map
        ∷ with_job_config_map_ns config_map_ns
        ∷ [])
    else if text_eq name Name.kopia_restore
    then some (
        with_destination_pvc dst.name
        ∷ with_namespace dst.namespace
        ∷ with_volume_backup_name src.name
        ∷ with_volume_backup_namespace src.namespace
        ∷ with_backup_location_namespace src.namespace
        ∷ with_labels de.labels
        ∷ with_data_export_name de.name
        ∷ with_cert_secret_name cert_secret_name
        ∷ with_cert_secret_namespace dst.namespace
        ∷ with_job_config_map config_map
        ∷ with_job_config_map_ns config_map_ns
        ∷ [])
    else none
  where
    open de.spec use {source as src, destination as dst}

-- `err == utils.ErrJobAlreadyRunning || err == utils.ErrOutOfJobResources`.
abbrev is_busy_kind : ErrorKind → Bool
is_busy_kind job_already_running = true
is_busy_kind out_of_job_resources = true
is_busy_kind _ = false

unfoldable pub start_verdict : DataExport → Error → Verdict
start_verdict de e =
    if is_busy_kind e.kind
    then quit true none
    else fail_with de
        (format "failed to start a data transfer job, dataexport [%v]: %v" (de.name ∷ e.text ∷ []))

module _ (k : Cluster) (r : Retry) where
  -- startTransferJob, at a driver that is not nil.
  unfoldable pub start_transfer_job :
      Driver k.World k.Float64 → Text → Text → DataExport → Text → Text → Text → Call k.World Text
  start_transfer_job drv src_pvc_name compression_type de pod_data_path config_map config_map_ns w =
      elim (transfer_options drv.name src_pvc_name compression_type de pod_data_path config_map
        config_map_ns) [
          | some opts ↦ drv.start_job opts w
          | none ↦ (w, err (errorf (format "unknown data transfer driver: %s" (drv.name ∷ []))))
        ]

  -- The credentials for a backup with kopia.
  prepare_backup : DataExport → Act k.World (Unit {0})
  prepare_backup de =
      attempt
        (create_credentials_secret k de.name de.spec.destination.name de.spec.destination.namespace
          de.spec.source.namespace de.labels)
        (λ e.
          fail_with de (
            format "failed to create cloud credential secret during kopia backup: %v"
              (e.text ∷ [])))

  -- The claim, a pointer, is dereferenced by the service that creates it.
  restore_pvc_of : Option Pvc → Act k.World Pvc
  restore_pvc_of (some pvc) = pure pvc
  restore_pvc_of none = finish crash

  -- The claim and the credentials for a restore with kopia.
  prepare_restore : DataExport → Act k.World (Unit {0})
  unfolding restore_pvc_of
  prepare_restore de = do
    vb ← attempt (k.get_volume_backup de.spec.source.name de.spec.source.namespace) (λ e.
        fail_with de (
          format "Error accessing volumebackup %s in namespace %s : %v"
            (de.spec.source.name ∷ de.spec.source.namespace ∷ e.text ∷ [])))
    pvc ← restore_pvc_of de.status.restore_pvc
    attempt (create_pvc k r pvc) (λ e. fail_with de (
        format "Error creating pvc %s/%s for restore: %v" (pvc.namespace ∷ pvc.name ∷ e.text ∷ [])))
    attempt (check_pvc_ignoring_job_mounts k r de.spec.destination de.name) (λ e. fail_with de (
        format "Destination pvc %s/%s is not bound yet: %v"
          (pvc.namespace ∷ pvc.name ∷ e.text ∷ [])))
    attempt
        (create_credentials_secret k de.name vb.backup_location.name vb.backup_location.namespace
          de.spec.destination.namespace de.labels)
        (λ e. fail_with de (
          format "failed to create cloud credential secret during kopia restore: %v" (e.text ∷ [])))

  -- The compression and the path from the config map; an error means the default.
  settings_of : Result (List (Text × Text)) → Text × Text
  settings_of (err _) = (default_compresion, [])
  settings_of (ok m) =
      (lookup_text (codes "KDMP_COMPRESSION") m, lookup_text (codes "KDMP_BACKUP_PATH") m)

  settings : Act k.World (Text × Text)
  unfolding settings_of
  settings w =
      let (w', x) = k.get_config_map kdmp_configmap_name kdmp_configmap_namespace w in
      (w', Exit.go (settings_of x))

  -- `if driverName == … { … }`
  when : Bool → Act k.World (Unit {0}) → Act k.World (Unit {0})
  when true m = m
  when false m = pure tt

  start_transfer : Text → Driver k.World k.Float64 → DataExport → Act k.World Verdict
  unfolding prepare_backup prepare_restore settings when
  start_transfer driver_name driver de = do
    attempt (create_certificate_secret k cert_secret_name de.spec.source.namespace de.labels)
        (λ e. quit false (some e))
    when (text_eq driver_name Name.kopia_backup) (prepare_backup de)
    when (text_eq driver_name Name.kopia_restore) (prepare_restore de)
    options ← settings
    let snapshot_pvc =
        if is_empty de.status.snapshot_pvc_name
        then de.spec.source.name
        else de.status.snapshot_pvc_name
    let src_pvc_name =
        if text_eq driver_name Name.kopia_restore then de.spec.destination.name else snapshot_pvc
    id ←
        attempt
          (start_transfer_job driver src_pvc_name options.0 de options.1 kdmp_configmap_name
            kdmp_configmap_namespace)
          (start_verdict de)
    finish (
        write true (record de { status = record de.status { transfer_id = id } })
          (record (to_status Status.successful []) { transfer_id = id }))

  unfoldable pub transfer_scheduled :
      Status → Text → Driver k.World k.Float64 → DataExport → Act k.World Verdict
  unfolding start_transfer
  transfer_scheduled Status.successful driver_name driver de =
      finish (next_stage Stage.transfer_in_progress de)
  transfer_scheduled Status.failed driver_name driver de =
      finish (write false de (to_stage Stage.cleanup Status.failed []))
  transfer_scheduled _ driver_name driver de = start_transfer driver_name driver de
