-- ===== src/Drivers/KopiaBackup/Arguments.antt =====
-- What the kopia executor reads of the command line that the driver of kopia backups writes.
use kdmp.Base.{Bool, true, false, List, [], ◌∷◌, ◌++◌, Text, codes, ◌≡◌, text_eq, ◌||◌, ◌&&◌}
use kdmp.Drivers.Options.{JobOpts}
use kdmp.Drivers.KopiaBackup.{to_repo_name}
use kdmp.Executor.Arguments.{BackupArguments}

-- The words of settings of flags.
abbrev pub flag_words : List (Text × Text) → List Text
flag_words [] = []
flag_words ((name, value) ∷ sets) = (codes "--" ++ name) ∷ value ∷ flag_words sets

abbrev pub occurs : Text → List Text → Bool
occurs name [] = false
occurs name (n ∷ ns) = text_eq name n || occurs name ns

-- The flags that the backup command of the executor has.
abbrev pub backup_flags : List Text
backup_flags =
    codes "repository"
    ∷ codes "credentials"
    ∷ codes "backup-location"
    ∷ codes "backup-location-namespace"
    ∷ codes "volume-backup-name"
    ∷ codes "backup-namespace"
    ∷ codes "source-path"
    ∷ codes "source-path-glob"
    ∷ codes "compression"
    ∷ []

abbrev pub registered : List (Text × Text) → Bool
registered [] = true
registered ((name, value) ∷ sets) = occurs name backup_flags && registered sets

-- pflag: a text flag that is registered takes the word after it as its value, and the flags are set
-- in their order.
abbrev pub ReadsFlags : (List Text → List (Text × Text)) → Type 0
ReadsFlags read_flags =
    (sets : List (Text × Text)) → registered sets ≡ true → read_flags (flag_words sets) ≡ sets

-- The settings that stand for the compression.
abbrev compression_sets : Text → List (Text × Text)
compression_sets [] = []
compression_sets (c ∷ t) = (codes "compression", c ∷ t) ∷ []

-- What the executor is to read, for the source path and the glob.
abbrev pub told : Text → JobOpts → Text → Text → BackupArguments
told job_name o source_path source_path_glob = record {
  flags = record {
    volume_backup_name = job_name;
    namespace = o.namespace;
    kopia_repo = to_repo_name o.repo_pvc_name o.namespace;
    compression = o.compression;
    backup_location_name = o.backup_location_name;
    backup_location_namespace = o.backup_location_namespace;
  };
  credentials = o.data_export_name;
  source_path = source_path;
  source_path_glob = source_path_glob;
}

-- The same with another compression.
abbrev compressed : Text → BackupArguments → BackupArguments
compressed z a = record a { flags = record a.flags { compression = z } }

-- The settings of a backup's command line, and of a live backup's.
abbrev backup_sets : Text → JobOpts → Text → List (Text × Text)
backup_sets job_name o z =
    (codes "volume-backup-name", job_name)
    ∷ (codes "repository", to_repo_name o.repo_pvc_name o.namespace)
    ∷ (codes "credentials", o.data_export_name)
    ∷ (codes "backup-location", o.backup_location_name)
    ∷ (codes "backup-location-namespace", o.backup_location_namespace)
    ∷ (codes "backup-namespace", o.namespace)
    ∷ (codes "source-path", codes "/data")
    ∷ compression_sets z

abbrev live_sets : Text → Text → JobOpts → Text → List (Text × Text)
live_sets job_name path o z =
    (codes "volume-backup-name", job_name)
    ∷ (codes "credentials", o.data_export_name)
    ∷ (codes "backup-location", o.backup_location_name)
    ∷ (codes "backup-location-namespace", o.backup_location_namespace)
    ∷ (codes "backup-namespace", o.namespace)
    ∷ (codes "repository", to_repo_name o.repo_pvc_name o.namespace)
    ∷ (codes "source-path-glob", path)
    ∷ compression_sets z
