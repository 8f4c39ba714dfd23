-- ===== src/Controller/Snapshot/Calls.antt =====
-- Helpers of the snapshot stages that call the cluster.
use kdmp.Base.{
  not, ◌||◌, [], ◌∷◌, Text, codes, errorf, Call, format, Result, ok, err, is_not_found, is_empty,
  text_eq, if◌then◌else◌,
}
use kdmp.Base.Results.{return, raise, wrap, ◌>>=◌, ◌>>◌}
use kdmp.Api.{DataExport, Pvc}
use kdmp.Services.{Cluster}
use kdmp.Controller.Names.{to_snapshot_pvc_name, trim_label}

abbrev pub csi_provider : Text
csi_provider = codes "csi"

abbrev pub data_export_uid_annotation : Text
data_export_uid_annotation = codes "portworx.io/dataexport-uid"

abbrev pub data_export_name_annotation : Text
data_export_name_annotation = codes "portworx.io/dataexport-name"

abbrev pub skip_resource_annotation : Text
skip_resource_annotation = codes "stork.libopenstorage.org/skip-resource"

-- The answer for a storage class from the lookup of a CSI snapshot class of that name. An error
-- other than not found gives the empty name and no error.
class_driver : Text → Result (Unit {0}) → Result Text
class_driver class (ok _) = ok csi_provider
class_driver class (err e) =
    if not (is_not_found e)
    then ok []
    else err (
        errorf (
          format "did not find any supported snapshot driver for snapshot storage class %s"
            (class ∷ [])))

module _ (k : Cluster) where
  unfoldable pub get_snapshot_driver_name : DataExport → Call k.World Text
  unfolding class_driver
  get_snapshot_driver_name de =
      if is_empty class
      then raise (errorf (format "snapshot storage class not provided" []))
      else if text_eq class (codes "default") || text_eq class (codes "Default")
      then return csi_provider
      else do
        k.snapshot_client
        λ w. ((k.get_snapshot_class class w).0, class_driver class (k.get_snapshot_class class w).1)
    where
      class : Text
      class = de.spec.snapshot_storage_class

  -- restoreSnapshot. The driver is not nil here; the status of the object in hand that it also
  -- changes is changed again by its caller.
  unfoldable pub restore_snapshot : Text → DataExport → Call k.World Pvc
  restore_snapshot driver de = do
    src_pvc ← k.get_pvc de.spec.source.name de.spec.source.namespace
    wrap
        (λ e.
          errorf (
            format "restore pvc from %s snapshot failed: %s" (de.status.snapshot_id ∷ e.text ∷ [])))
        (k.restore_volume_claim driver de.namespace de.status.snapshot_id (record {
          name = to_snapshot_pvc_name src_pvc.name de.uid;
          namespace = src_pvc.namespace;
          phase = [];
          storage_class = src_pvc.storage_class;
          storage_request = src_pvc.storage_request;
          request_text = src_pvc.request_text;
          volume_name = [];
          annotations =
              (skip_resource_annotation, codes "true")
              ∷ (data_export_uid_annotation, de.uid)
              ∷ (data_export_name_annotation, trim_label de.name)
              ∷ [];
        }))
