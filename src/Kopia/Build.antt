-- ===== src/Kopia/Build.antt =====
-- The functions of pkg/kopia that make a Command, with their checks of what they are given.
use kdmp.Base.{
  Bool, [], ◌∷◌, ◌++◌, Text, codes, errorf, Result, ok, err, is_empty, format, if◌then◌else◌,
}
use kdmp.Kopia.{Command, no_command}

abbrev no_repository : Result Command
no_repository = err (errorf (format "repository name cannot be empty" []))

-- The Command of GetCreateCommand and of GetConnectCommand.
abbrev pub repository_command : Text → Text → Text → Text → Text → Bool → Command
repository_command name path repo_name password provider disable_ssl = record no_command {
  name = name;
  provider = provider;
  repository_name = repo_name;
  password = password;
  path = path;
  disable_ssl = disable_ssl;
}

unfoldable pub get_create_command : Text → Text → Text → Text → Bool → Result Command
get_create_command path repo_name password provider disable_ssl =
    if is_empty repo_name
    then no_repository
    else ok (repository_command (codes "create") path repo_name password provider disable_ssl)

unfoldable pub get_connect_command : Text → Text → Text → Text → Bool → Result Command
get_connect_command path repo_name password provider disable_ssl =
    if is_empty repo_name
    then no_repository
    else ok (repository_command (codes "connect") path repo_name password provider disable_ssl)

unfoldable pub get_backup_command : Text → Text → Text → Text → Text → Result Command
get_backup_command path repo_name password provider source_path =
    if is_empty repo_name
    then no_repository
    else ok (record no_command {
      name = codes "create";
      password = password;
      path = path;
      dir = source_path;
      provider = provider;
      args = codes "." ∷ [];
    })

unfoldable pub get_restore_command : Text → Text → Text → Text → Text → Text → Result Command
get_restore_command path repo_name password provider target_path snapshot_id =
    if is_empty target_path
    then err (errorf (format "destination path cannot be empty" []))
    else if is_empty repo_name
    then no_repository
    else if is_empty password
    then err (errorf (format "password cannot be empty" []))
    else if is_empty snapshot_id
    then err (errorf (format "snapshot id cannot be empty" []))
    else ok (record no_command {
      name = codes "restore";
      password = password;
      dir = target_path;
      provider = provider;
      args = snapshot_id ∷ codes "." ∷ [];
    })

unfoldable pub get_compression_command : Text → Text → Result Command
get_compression_command path compression =
    if is_empty path
    then err (errorf (format "path name cannot be empty" []))
    else ok (record no_command { name = codes "policy"; path = path; compression = compression })

abbrev pub get_delete_command : Text → Command
get_delete_command snapshot_id = record no_command {
  name = codes "delete";
  snapshot_id = snapshot_id;
}

abbrev pub set_global_policy_command : Command
set_global_policy_command = record no_command { name = codes "set" }

abbrev pub get_maintenance_run_command : Command
get_maintenance_run_command = record no_command { name = codes "maintenance" }

abbrev pub get_quick_maintenance_run_command : Command
get_quick_maintenance_run_command = record no_command { name = codes "maintenance" }

-- GetMaintenanceSetCommand, after os.Hostname.
unfoldable pub get_maintenance_set_command : Result Text → Result Command
get_maintenance_set_command (ok hostname) = ok (record no_command {
  name = codes "maintenance";
  maintenance_owner = codes "root@" ++ hostname;
})
get_maintenance_set_command (err e) =
    err (errorf (format "failed in getting hostname: %v" (e.text ∷ [])))
