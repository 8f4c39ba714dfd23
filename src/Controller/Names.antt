-- ===== src/Controller/Names.antt =====
-- The names that reconcile.go derives: snapshots, temporary claims, labels, files of the object
-- store, and the annotations it reads.
pub mod Laws
use kdmp.Base.{
  ℕ, Bool, true, false, List, [], ◌∷◌, ◌++◌, Option, none, some, Text, codes, format, leb, length,
  take, is_empty, not, if◌then◌else◌,
}
use kdmp.Base.Strings.{split, join, lookup_text, join_path}
use kdmp.Api.{DataExport}

abbrev pub pvc_name_len_limit : ℕ
pvc_name_len_limit = 247

-- uidToken[0]: strings.Split never returns an empty list.
abbrev pub head_text : List Text → Text
head_text [] = []
head_text (t ∷ _) = t

-- `if len(s) > n { s = s[:n] }`
unfoldable pub cut : ℕ → Text → Text
cut n s = if leb (length s) n then s else take n s

abbrev pub truncated_pvc_name : Text → Text
truncated_pvc_name = cut pvc_name_len_limit

unfoldable pub to_snap_name : Text → Text → Text
to_snap_name pvc_name data_export_uid =
    truncated_pvc_name pvc_name ++ (b'-' ∷ head_text (split b'-' data_export_uid))

unfoldable pub to_snapshot_pvc_name : Text → Text → Text
to_snapshot_pvc_name pvc_name data_export_uid =
    truncated_pvc_name pvc_name ++ (b'-' ∷ head_text (split b'-' data_export_uid))

unfoldable pub trim_label : Text → Text
unfolding cut
trim_label label = cut 63 label

unfoldable pub has_snapshot_stage : DataExport → Bool
has_snapshot_stage de = not (is_empty de.spec.snapshot_storage_class)

unfoldable pub has_local_restore_stage : DataExport → Bool
has_local_restore_stage de = de.status.local_snapshot_restore

-- subStrings[:len(subStrings)-1].
abbrev pub drop_last : List Text → List Text
drop_last [] = []
drop_last (t ∷ []) = []
drop_last (t ∷ u ∷ ts) = t ∷ drop_last (u ∷ ts)

unfoldable pub get_repo_pvc_name : DataExport → Text → Text
unfolding has_snapshot_stage
get_repo_pvc_name de pvc_name =
    if has_snapshot_stage de then join (codes "-") (drop_last (split b'-' pvc_name)) else pvc_name

unfoldable pub get_annotation_value : DataExport → Text → Text
get_annotation_value de key = lookup_text key de.annotations

unfoldable pub get_vs_file_name : Text → Text → Text
get_vs_file_name backup_uuid timestamp = format "%s-%s.json" (backup_uuid ∷ timestamp ∷ [])

unfoldable pub get_csi_cr_upload_directory : Text → Text
get_csi_cr_upload_directory pvc_uid = join_path (codes "csi-generic") pvc_uid
