-- ===== src/Controller/Refs.antt =====
-- Which driver a data export wants, from the kinds of its source and destination.
pub mod Laws
use kdmp.Base.{
  Bool, true, false, ◌&&◌, ◌||◌, not, List, [], ◌∷◌, Text, codes, is_empty, text_eq, format, Error,
  errorf, Result, ok, err, if◌then◌else◌,
}
use kdmp.Drivers.Name
use kdmp.Api.{ObjectReference, DataExport, DataExportType}

abbrev pub type_text : DataExportType → Text
type_text DataExportType.unset = []
type_text DataExportType.rsync = codes "rsync"
type_text DataExportType.restic = codes "restic"
type_text DataExportType.kopia = codes "kopia"
type_text (DataExportType.other t) = t

has_kind : Text → Text → ObjectReference → Bool
has_kind kind api_version r = text_eq r.kind kind && text_eq r.api_version api_version

unfoldable pub is_pvc_ref : ObjectReference → Bool
unfolding has_kind
is_pvc_ref = has_kind (codes "PersistentVolumeClaim") (codes "v1")

unfoldable pub is_backup_location_ref : ObjectReference → Bool
unfolding has_kind
is_backup_location_ref =
    has_kind (codes "BackupLocation") (codes "stork.libopenstorage.org/v1alpha1")

unfoldable pub is_volume_backup_ref : ObjectReference → Bool
unfolding has_kind
is_volume_backup_ref = has_kind (codes "VolumeBackup") (codes "kdmp.portworx.com/v1alpha1")

unfoldable pub is_api_version_kind_not_set_ref : ObjectReference → Bool
is_api_version_kind_not_set_ref r = is_empty r.kind && is_empty r.api_version

unfoldable pub check_name_namespace : ObjectReference → Result (Unit {0})
check_name_namespace r =
    if is_empty r.name
    then err (errorf (format "name has to be set" []))
    else if is_empty r.namespace
    then err (errorf (format "namespace has to be set" []))
    else ok tt

-- The two flags of getDriverType.
pub data Direction : Type 0 where
  backup restore neither : Direction

-- The first switch.
unfoldable pub direction : ObjectReference → ObjectReference → Result Direction
direction src dst =
    if is_pvc_ref src || is_api_version_kind_not_set_ref src
    then if is_backup_location_ref dst
      then ok backup
      else err (
          errorf (format "invalid kind for generic backup destination: expected BackupLocation" []))
    else if is_volume_backup_ref src
    then if is_pvc_ref dst || is_api_version_kind_not_set_ref dst
      then ok restore
      else err (
          errorf (
            format "invalid kind for generic restore destination: expected PersistentVolumeClaim"
              []))
    else ok neither

-- The second switch.
driver_name : DataExportType → Direction → Result Text
driver_name DataExportType.restic backup = ok Name.restic_backup
driver_name DataExportType.restic restore = ok Name.restic_restore
driver_name DataExportType.restic neither = err (
    errorf
      (format "invalid kind for generic source: expected PersistentVolumeClaim or VolumeBackup" []))
driver_name DataExportType.kopia backup = ok Name.kopia_backup
driver_name DataExportType.kopia restore = ok Name.kopia_restore
driver_name DataExportType.kopia neither = err (
    errorf
      (format "invalid kind for generic source: expected PersistentVolumeClaim or VolumeBackup" []))
driver_name type _ = ok (type_text type)

driver_type : DataExportType → Result Direction → Result Text
driver_type type (ok d) = driver_name type d
driver_type type (err e) = err e

unfoldable pub get_driver_type : DataExport → Result Text
unfolding driver_name driver_type
get_driver_type de = driver_type de.spec.type (direction de.spec.source de.spec.destination)
