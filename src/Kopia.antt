-- ===== src/Kopia.antt =====
-- The commands of kopia: pkg/kopia/command.go. The other files of pkg/kopia are in the children.
pub mod Build
pub mod Connects
pub mod Output
pub mod Executors
pub mod Runs
use kdmp.Base.{
  Bool, true, false, Option, none, some, List, [], ◌∷◌, ◌++◌, Text, codes, is_empty, text_eq,
  if◌then◌else◌,
}

pub record Command : Type 0 where
  pub name : Text
  pub path : Text
  pub repository_name : Text
  pub dir : Text
  pub args : List Text
  pub flags : List Text
  pub env : List Text
  pub password : Text
  pub provider : Text
  pub snapshot_id : Text
  pub maintenance_owner : Text
  pub disable_ssl : Bool
  pub compression : Text

-- `&Command{}`.
abbrev pub no_command : Command
no_command = record {
  name = [];
  path = [];
  repository_name = [];
  dir = [];
  args = [];
  flags = [];
  env = [];
  password = [];
  provider = [];
  snapshot_id = [];
  maintenance_owner = [];
  disable_ssl = false;
  compression = [];
}

unfoldable pub add_arg : Command → Text → Command
add_arg c arg = record c { args = c.args ++ (arg ∷ []) }

unfoldable pub add_flag : Command → Text → Command
add_flag c flag = record c { flags = c.flags ++ (flag ∷ []) }

unfoldable pub add_env : Command → List Text → Command
add_env c envs = record c { env = c.env ++ envs }

-- exec.Cmd, by what the source sets; the environment is the parent's where it is none.
pub record ExecCmd : Type 0 where
  pub program : Text
  pub arguments : List Text
  pub environment : Option (List Text)
  pub directory : Text

-- The log directory and the configuration file, which every command passes.
abbrev pub log_and_config : List Text
log_and_config =
    codes "--log-dir" ∷ codes "/tmp" ∷ codes "--config-file" ∷ codes "/tmp/kopiconfig" ∷ []

-- The switches of CreateCmd and ConnectCmd on the provider.
unfoldable pub create_args : Command → List Text
create_args c =
    if text_eq c.provider (codes "azure")
    then codes "repository"
      ∷ c.name
      ∷ c.provider
      ∷ codes "--password"
      ∷ c.password
      ∷ codes "--prefix"
      ∷ c.repository_name
      ∷ codes "--log-dir"
      ∷ codes "/tmp"
      ∷ codes "--cache-directory"
      ∷ codes "/tmp"
      ∷ codes "--config-file"
      ∷ codes "/tmp/kopiconfig"
      ∷ []
    else if text_eq c.provider (codes "s3")
    then (codes "repository"
        ∷ c.name
        ∷ c.provider
        ∷ codes "--bucket"
        ∷ c.path
        ∷ codes "--password"
        ∷ c.password
        ∷ codes "--prefix"
        ∷ c.repository_name
        ∷ codes "--cache-directory"
        ∷ codes "/tmp"
        ∷ log_and_config)
      ++ (if c.disable_ssl then codes "--disable-tls" ∷ [] else [])
    else if text_eq c.provider (codes "gcs")
    then codes "repository"
      ∷ c.name
      ∷ c.provider
      ∷ codes "--bucket"
      ∷ c.path
      ∷ codes "--password"
      ∷ c.password
      ∷ codes "--prefix"
      ∷ c.repository_name
      ∷ codes "--cache-directory"
      ∷ codes "/tmp"
      ∷ log_and_config
    else []

unfoldable pub connect_args : Command → List Text
connect_args c =
    if text_eq c.provider (codes "azure")
    then codes "repository"
      ∷ c.name
      ∷ c.provider
      ∷ codes "--password"
      ∷ c.password
      ∷ codes "--prefix"
      ∷ c.repository_name
      ∷ codes "--cache-directory"
      ∷ codes "/tmp"
      ∷ log_and_config
    else if text_eq c.provider (codes "s3")
    then (codes "repository"
        ∷ c.name
        ∷ c.provider
        ∷ codes "--bucket"
        ∷ c.path
        ∷ codes "--password"
        ∷ c.password
        ∷ codes "--prefix"
        ∷ c.repository_name
        ∷ codes "--cache-directory"
        ∷ codes "/tmp"
        ∷ log_and_config)
      ++ (if c.disable_ssl then codes "--disable-tls" ∷ [] else [])
    else if text_eq c.provider (codes "gcs")
    then codes "repository"
      ∷ c.name
      ∷ c.provider
      ∷ codes "--bucket"
      ∷ c.path
      ∷ codes "--password"
      ∷ c.password
      ∷ codes "--prefix"
      ∷ c.repository_name
      ∷ codes "--cache-directory"
      ∷ codes "/tmp"
      ∷ log_and_config
    else []

-- The commands, over os.Environ().
module _ (environ : List Text) where
  -- What every method does with the words it has chosen.
  unfoldable pub exec_cmd : List Text → Command → ExecCmd
  exec_cmd words c = record {
    program = codes "kopia";
    arguments = (words ++ c.flags) ++ c.args;
    environment = if is_empty c.env then none else some (environ ++ c.env);
    directory = c.dir;
  }

  unfoldable pub create_cmd : Command → ExecCmd
  unfolding exec_cmd create_args
  create_cmd c = exec_cmd (create_args c) c

  unfoldable pub backup_cmd : Command → ExecCmd
  unfolding exec_cmd
  backup_cmd c = exec_cmd (codes "snapshot" ∷ c.name ∷ log_and_config ++ (codes "--json" ∷ [])) c

  unfoldable pub connect_cmd : Command → ExecCmd
  unfolding exec_cmd connect_args
  connect_cmd c = exec_cmd (connect_args c) c

  unfoldable pub restore_cmd : Command → ExecCmd
  unfolding exec_cmd
  restore_cmd c = exec_cmd (codes "snapshot" ∷ c.name ∷ log_and_config) c

  unfoldable pub set_policy_cmd : Command → ExecCmd
  unfolding exec_cmd
  set_policy_cmd c =
      exec_cmd (codes "policy" ∷ c.name ∷ log_and_config ++ (codes "--global" ∷ [])) c

  unfoldable pub delete_cmd : Command → ExecCmd
  unfolding exec_cmd
  delete_cmd c =
      exec_cmd
        (codes "snapshot" ∷ c.name ∷ c.snapshot_id ∷ log_and_config ++ (codes "--delete" ∷ [])) c

  unfoldable pub quick_maintenance_run_cmd : Command → ExecCmd
  unfolding exec_cmd
  quick_maintenance_run_cmd c = exec_cmd (c.name ∷ codes "run" ∷ log_and_config) c

  unfoldable pub maintenance_run_cmd : Command → ExecCmd
  unfolding exec_cmd
  maintenance_run_cmd c =
      exec_cmd (c.name ∷ codes "run" ∷ log_and_config ++ (codes "--full" ∷ [])) c

  unfoldable pub maintenance_set_cmd : Command → ExecCmd
  unfolding exec_cmd
  maintenance_set_cmd c =
      exec_cmd (c.name ∷ codes "set" ∷ codes "--owner" ∷ c.maintenance_owner ∷ log_and_config) c

  unfoldable pub compression_cmd : Command → ExecCmd
  unfolding exec_cmd
  compression_cmd c =
      exec_cmd
        (c.name ∷ codes "set" ∷ c.path ∷ codes "--compression" ∷ c.compression ∷ log_and_config) c
