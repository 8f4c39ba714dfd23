-- ===== src/Controller/Refs/Laws.antt =====
-- What getDriverType accepts.
use kdmp.Base.{true, ◌||◌, Text, ◌≡◌, ◌⊎◌, ok, arith}
use kdmp.Drivers.Name
use kdmp.Api.{DataExport, DataExportType}
use kdmp.Controller.Refs.{
  is_pvc_ref, is_backup_location_ref, is_volume_backup_ref, is_api_version_kind_not_set_ref,
  direction, get_driver_type,
}

-- A kopia data export from a claim (or with the source's kind left out) to a backup location backs
-- up; one from a volume backup to a claim (or with the kind left out) restores; the name of no
-- other driver is given, whatever the source and the destination are.
pub get_driver_type_kopia :
    (de : DataExport) (name : Text)
    → de.spec.type ≡ DataExportType.kopia
    → get_driver_type de ≡ ok name
    → ((name ≡ Name.kopia_backup)
        × ((is_pvc_ref de.spec.source || is_api_version_kind_not_set_ref de.spec.source) ≡ true)
        × (is_backup_location_ref de.spec.destination ≡ true))
      ⊎ ((name ≡ Name.kopia_restore)
          × (is_volume_backup_ref de.spec.source ≡ true)
          × ((is_pvc_ref de.spec.destination || is_api_version_kind_not_set_ref de.spec.destination)
              ≡ true))
unfolding get_driver_type direction
get_driver_type_kopia de name t h = ground arith
