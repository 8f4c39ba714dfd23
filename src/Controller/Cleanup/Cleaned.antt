-- ===== src/Controller/Cleanup/Cleaned.antt =====
-- What cleanUp has removed when it ends without an error.
use kdmp.Base.{true, false, Error, Text, ok, err, ◌≡◌, ◌⊎◌, is_not_found, is_empty, Call}
use kdmp.Api.{DataExport}
use kdmp.Services.{Cluster, Retry, BackupLocation}
use kdmp.Drivers.{Driver}
use kdmp.Drivers.KopiaBackup.Start.{Accepted}
use kdmp.Controller.Names.{
  has_snapshot_stage, has_local_restore_stage, get_annotation_value, get_csi_cr_upload_directory,
}
use kdmp.Controller.Secrets.{get_backuplocation_from_secret}
use kdmp.Controller.Snapshot.{get_snapshot_driver_name, pvc_uid_key}
use kdmp.Controller.Cleanup.{
  has_snapshot_pvc, cleanup_local_restored_snapshot_resources, cert_secret_name,
}

-- The call succeeded, or reported that there is no such object.
abbrev pub Gone : {W : Type 0} → Call W (Unit {0}) → W → W → Type 0
Gone m w w' = Accepted is_not_found m w w'

module _ (k : Cluster) (r : Retry) (driver : Driver k.World k.Float64) (de : DataExport) where
  -- The certificate's secret is gone, and then the job, where there is one.
  abbrev pub JobGone : k.World → k.World → Type 0
  JobGone w w' =
      (w₁ : k.World) × Gone (k.delete_secret cert_secret_name de.spec.source.namespace) w w₁
      × ((is_empty de.status.transfer_id ≡ true) × (w' ≡ w₁)
          ⊎ (is_empty de.status.transfer_id ≡ false)
            × Gone (driver.delete_job de.status.transfer_id) w₁ w')

  -- The backup location was read from the secret, the older snapshots were removed, and the temporary
  -- claim is gone.
  abbrev pub ClaimGone : Text → k.World → k.World → Type 0
  ClaimGone name w w' =
      (location : BackupLocation) × (w₁ : k.World) × (w₂ : k.World)
      × (get_backuplocation_from_secret k de.name de.spec.source.namespace w ≡ (w₁, ok location))
      × (k.retain_local_snapshots name location de.spec.snapshot_storage_class
            de.status.snapshot_pvc_namespace (get_annotation_value de pvc_uid_key)
            (get_csi_cr_upload_directory (get_annotation_value de pvc_uid_key)) w₁
          ≡ (w₂, ok tt))
      × Gone (k.delete_pvc de.status.snapshot_pvc_name de.status.snapshot_pvc_namespace) w₂ w'

  -- The secret of the credentials is missing, and nothing was done after it was asked for.
  abbrev pub SecretMissing : k.World → k.World → Type 0
  SecretMissing w w' =
      (e : Error) × (get_backuplocation_from_secret k de.name de.spec.source.namespace w
        ≡ (w', err e))
      × (is_not_found e ≡ true)

  -- After the snapshot driver was found.
  abbrev pub SnapshotGone : Text → k.World → k.World → Type 0
  SnapshotGone name w w' =
      (has_snapshot_pvc k r de ≡ false) × JobGone w w'
      ⊎ (has_snapshot_pvc k r de ≡ true) × ((w₁ : k.World) × ClaimGone name w w₁ × JobGone w₁ w')
      ⊎ (has_snapshot_pvc k r de ≡ true) × SecretMissing w w'

  -- Where no local restore was tried and there is a snapshot stage.
  abbrev pub StageGone : k.World → k.World → Type 0
  StageGone w w' =
      (name : Text) × (w₁ : k.World) × (w₂ : k.World) × (get_snapshot_driver_name k de w
        ≡ (w₁, ok name))
      × (k.snapshot_driver name w₁ ≡ (w₂, ok tt))
      × SnapshotGone name w₂ w'

  -- Where a local restore was tried.
  abbrev pub RestoreGone : k.World → k.World → Type 0
  RestoreGone w w' =
      (w₁ : k.World) × (cleanup_local_restored_snapshot_resources k r de true w ≡ (w₁, ok tt))
      × JobGone w₁ w'

  abbrev pub Cleaned : k.World → k.World → Type 0
  Cleaned w w' =
      (has_local_restore_stage de ≡ true) × RestoreGone w w'
      ⊎ (has_local_restore_stage de ≡ false) × (has_snapshot_stage de ≡ true) × StageGone w w'
      ⊎ (has_local_restore_stage de ≡ false) × (has_snapshot_stage de ≡ false) × JobGone w w'
