-- ===== src/Executor/VolumeBackups.antt =====
-- The custom resources that the executors write, and the source path of a backup:
-- pkg/executor/common.go.
pub mod Created
use kdmp.Base.{
  Bool, ◌&&◌, Option, none, some, List, [], ◌∷◌, Text, codes, Error, errorf, Result, ok, err, Call,
  String, format, is_empty, is_not_found, text_eq, if◌then◌else◌,
}
use kdmp.Base.Results.{raise, return, wrap, ◌>>=◌}
use kdmp.Base.Strings.{join}
use kdmp.Api.{VolumeBackup, ObjectReference}
use kdmp.Executor.{ExecutorServices, Floats, Status, DeleteStatus}
use kdmp.Jobs.Accounts.{skip_resource_annotations}

abbrev error_text : Option Error → Text
error_text none = []
error_text (some e) = e.text

-- `fmt.Errorf(msg, name, namespace, err)`.
abbrev pub about : String → Text → Text → Error → Error
about msg name namespace e = errorf (format msg (name ∷ namespace ∷ e.text ∷ []))

-- What WriteVolumeBackupStatus sets.
unfoldable pub with_status : {F : Type 0} → Status F → VolumeBackup F → VolumeBackup F
with_status status vb = record vb {
  progress_percentage = status.progress_percentage;
  total_bytes = status.total_bytes;
  total_bytes_processed = status.total_bytes_processed;
  snapshot_id = status.snapshot_id;
  last_known_error = error_text status.last_known_error;
}

unfoldable pub same_reference : ObjectReference → ObjectReference → Bool
same_reference a b =
    text_eq a.api_version b.api_version
    && (text_eq a.kind b.kind && (text_eq a.namespace b.namespace && text_eq a.name b.name))

-- reflect.DeepEqual on the specs.
unfoldable pub same_spec : {F : Type 0} → VolumeBackup F → VolumeBackup F → Bool
unfolding same_reference
same_spec a b =
    text_eq a.repository b.repository && same_reference a.backup_location b.backup_location

module _ {W F : Type 0} (x : ExecutorServices W F) where
  unfoldable pub write_volume_backup_status : Status F → Text → Text → Call W Unit
  unfolding with_status
  write_volume_backup_status status [] namespace = return tt
  write_volume_backup_status status (c ∷ name) namespace = do
    vb ←
        wrap (about "get %s/%s VolumeBackup: %v" (c ∷ name) namespace)
          (x.get_volume_backup (c ∷ name) namespace)
    wrap (about "update %s/%s VolumeBackup: %v" (c ∷ name) namespace)
        (x.update_volume_backup (with_status status vb))

  unfoldable pub write_volume_backup_delete_status : DeleteStatus → Text → Text → Text → Call W Unit
  write_volume_backup_delete_status status msg name namespace = do
    vd ←
        wrap (about "failed in getting VolumeBackupDelete CR  [%s/%s]: %v" name namespace)
          (x.get_volume_backup_delete name namespace)
    wrap (about "failed in updating VolumeBackupDelete CR %s/%s VolumeDelete: %v" name namespace)
        (x.update_volume_backup_delete (record vd { status = status; reason = msg }))

  module _ (floats : Floats F) where
    -- The object of CreateVolumeBackup.
    unfoldable pub new_volume_backup : Text → Text → Text → Text → Text → VolumeBackup F
    new_volume_backup name namespace repository bl_name bl_namespace = record {
      name = name;
      namespace = namespace;
      backup_location = record {
        api_version = [];
        kind = [];
        namespace = bl_namespace;
        name = bl_name;
      };
      repository = repository;
      progress_percentage = floats.zero;
      total_bytes = 0;
      total_bytes_processed = 0;
      snapshot_id = [];
      last_known_error = [];
    }

    -- After GetVolumeBackup.
    unfoldable pub create_or_check : VolumeBackup F → Result (VolumeBackup F) → Call W Unit
    unfolding same_spec
    create_or_check new (err e) =
        if is_not_found e then x.create_volume_backup skip_resource_annotations new else raise e
    create_or_check new (ok vb) =
        if same_spec vb new
        then (if is_empty vb.snapshot_id
            then return tt
            else raise (
                errorf (
                  format "volumebackup %s/%s with snapshot id already exists"
                    (new.namespace ∷ new.name ∷ []))))
        else raise (
            errorf (
              format "volumebackup %s/%s with different spec already exists"
                (new.namespace ∷ new.name ∷ [])))

    unfoldable pub create_volume_backup : Text → Text → Text → Text → Text → Call W Unit
    unfolding new_volume_backup create_or_check
    create_volume_backup name namespace repository bl_name bl_namespace w =
        let (w', r) = x.get_volume_backup name namespace w in
        create_or_check (new_volume_backup name namespace repository bl_name bl_namespace) r w'

  -- filepath.Glob's matches: there has to be one.
  unfoldable pub only_match : Result (List Text) → Result Text
  only_match (err e) = err (errorf (format "parse source-path-glob: %s" (e.text ∷ [])))
  only_match (ok (m ∷ [])) = ok m
  only_match (ok []) = err (errorf (codes "parse source-path-glob: invalid amount of matches: []"))
  only_match (ok (m ∷ n ∷ ms)) = err (
      errorf (
        format "parse source-path-glob: invalid amount of matches: [%v]"
          (join (codes " ") (m ∷ n ∷ ms) ∷ [])))

  unfoldable pub get_source_path : Text → Text → W → Result Text
  unfolding only_match
  get_source_path (c ∷ path) glob w = ok (c ∷ path)
  get_source_path [] [] w = err (errorf (codes "source-path argument is required for backups"))
  get_source_path [] (c ∷ glob) w = only_match (x.glob (c ∷ glob) w)
