-- ===== src/Executor/Arguments.antt =====
-- The command line of the kopia executor: the flags that NewCommand and newBackupCommand of
-- pkg/executor/kopia register, kopia.go and kopiabackup.go.
use kdmp.Base.{Option, none, some, List, [], ◌∷◌, Text, codes, text_eq, if◌then◌else◌}
use kdmp.Executor.{Flags}

-- The variables that the flags set.
pub record BackupArguments : Type 0 where
  pub flags : Flags
  pub credentials : Text
  pub source_path : Text
  pub source_path_glob : Text

-- The default of every flag is "".
abbrev pub no_arguments : BackupArguments
no_arguments = record {
  flags = record {
    volume_backup_name = [];
    namespace = [];
    kopia_repo = [];
    compression = [];
    backup_location_name = [];
    backup_location_namespace = [];
  };
  credentials = [];
  source_path = [];
  source_path_glob = [];
}

-- The persistent flags, which NewCommand registers.
unfoldable pub set_persistent_flag : Text → Text → BackupArguments → BackupArguments
set_persistent_flag name value a =
    if text_eq name (codes "repository")
    then record a { flags = record a.flags { kopia_repo = value } }
    else if text_eq name (codes "credentials")
    then record a { credentials = value }
    else if text_eq name (codes "backup-location")
    then record a { flags = record a.flags { backup_location_name = value } }
    else if text_eq name (codes "backup-location-namespace")
    then record a { flags = record a.flags { backup_location_namespace = value } }
    else if text_eq name (codes "volume-backup-name")
    then record a { flags = record a.flags { volume_backup_name = value } }
    else a

-- The flags of newBackupCommand, and the persistent ones.
unfoldable pub set_backup_flag : Text → Text → BackupArguments → BackupArguments
unfolding set_persistent_flag
set_backup_flag name value a =
    if text_eq name (codes "backup-namespace")
    then record a { flags = record a.flags { namespace = value } }
    else if text_eq name (codes "source-path")
    then record a { source_path = value }
    else if text_eq name (codes "source-path-glob")
    then record a { source_path_glob = value }
    else if text_eq name (codes "compression")
    then record a { flags = record a.flags { compression = value } }
    else set_persistent_flag name value a

unfoldable pub set_backup_flags : List (Text × Text) → BackupArguments → BackupArguments
unfolding set_backup_flag
set_backup_flags [] a = a
set_backup_flags ((name, value) ∷ sets) a = set_backup_flags sets (set_backup_flag name value a)

-- The program's name, the command, and its flags as pflag reads them: the settings in their order.
unfoldable pub backup_arguments :
    (List Text → List (Text × Text)) → List Text → Option BackupArguments
unfolding set_backup_flags
backup_arguments read_flags (program ∷ command ∷ args) =
    if text_eq command (codes "backup")
    then some (set_backup_flags (read_flags args) no_arguments)
    else none
backup_arguments read_flags _ = none
