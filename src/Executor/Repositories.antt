-- ===== src/Executor/Repositories.antt =====
-- What a backup does with its repository before the snapshot: whether it exists, its creation, the
-- global policy, the connection and the compression. pkg/executor/kopia/kopiabackup.go.
pub mod Policy
pub mod Connects
use kdmp.Base.{
  Bool, true, false, none, some, List, [], ◌∷◌, ◌++◌, Text, codes, Error, errorf, Result, ok, err,
  Call, ErrorKind, already_repo_exist,
}
use kdmp.Services.{Retry, Attempt, done, again, BackupLocation, LocationType}
use kdmp.Executor.{ExecutorServices, Floats, Flags, Repository, Store, Status}
use kdmp.Executor.Outcomes.{Run, run_call, run_result, rephrase, with_error, of_result, ◌>>=◌}
use kdmp.Executor.VolumeBackups.{write_volume_backup_status}
use kdmp.Kopia.{Command, add_arg}
use kdmp.Kopia.Build.{
  get_create_command, get_connect_command, set_global_policy_command, get_compression_command,
}
use kdmp.Kopia.Executors.{plain_status}
use kdmp.Kopia.Runs.{
  new_create_executor, new_connect_executor, new_set_global_policy_executor,
  new_compression_executor, run, retried,
}

-- kopiaProvderType, of the repository's type.
unfoldable pub kopia_provider_type : Store → Text
kopia_provider_type (Store.s3 _) = codes "s3"
kopia_provider_type (Store.google _) = codes "gcs"
kopia_provider_type (Store.azure _) = codes "azure"
kopia_provider_type Store.unset = []

-- The DisableSSL that is passed on.
unfoldable pub disable_ssl : Store → Bool
disable_ssl (Store.s3 c) = c.disable_ssl
disable_ssl _ = false

abbrev add_args : Command → List Text → Command
add_args c [] = c
add_args c (arg ∷ args) = add_args (add_arg c arg) args

-- populateS3AccessDetails, populateGCEAccessDetails, populateAzureccessDetails and the switch that
-- chooses among them.
unfoldable pub populate_access_details : Command → Repository → Command
unfolding add_arg
populate_access_details c repo = elim repo.store [
  | Store.s3 s ↦ add_args c (
      codes "--endpoint"
      ∷ s.endpoint
      ∷ codes "--access-key"
      ∷ s.access_key_id
      ∷ codes "--secret-access-key"
      ∷ s.secret_access_key
      ∷ [])
  | Store.google _ ↦
      add_args c (codes "--credentials-file" ∷ codes "/etc/cred-secret/accountkey" ∷ [])
  | Store.azure s ↦ add_args c (
      codes "--container"
      ∷ repo.path
      ∷ codes "--storage-account"
      ∷ s.storage_account_name
      ∷ codes "--storage-key"
      ∷ s.storage_account_key
      ∷ [])
  | Store.unset ↦ c
]

abbrev snapshots : Text
snapshots = codes "2147483647"

unfoldable pub add_policy_setting : Command → Command
unfolding add_arg
add_policy_setting c = add_args c (
    codes "--keep-latest"
    ∷ snapshots
    ∷ codes "--keep-hourly"
    ∷ snapshots
    ∷ codes "--keep-daily"
    ∷ snapshots
    ∷ codes "--keep-weekly"
    ∷ snapshots
    ∷ codes "--keep-monthly"
    ∷ snapshots
    ∷ codes "--keep-annual"
    ∷ snapshots
    ∷ [])

-- frameBackupPath.
unfoldable pub frame_backup_path : Text → Text
frame_backup_path repo = codes "generic-backup" ++ (b'/' ∷ (repo ++ codes "/"))

abbrev bare : Repository → LocationType → BackupLocation
bare repo type = record {
  name = repo.name;
  namespace = [];
  type = type;
  path = repo.path;
  repository_password = [];
  endpoint = [];
  access_key_id = [];
  secret_access_key = [];
  region = [];
  disable_ssl = false;
  storage_account_name = [];
  storage_account_key = [];
  project_id = [];
  account_key = [];
}

-- buildStorkBackupLocation.
unfoldable pub build_stork_backup_location : Repository → BackupLocation
build_stork_backup_location repo = elim repo.store [
  | Store.s3 s ↦ record (bare repo LocationType.s3) {
    access_key_id = s.access_key_id;
    secret_access_key = s.secret_access_key;
    endpoint = s.endpoint;
    region = s.region;
    disable_ssl = s.disable_ssl;
  }
  | Store.google s ↦ record (bare repo LocationType.google) {
    project_id = s.project_id;
    account_key = s.account_key;
  }
  | Store.azure s ↦ record (bare repo LocationType.azure) {
    storage_account_name = s.storage_account_name;
    storage_account_key = s.storage_account_key;
  }
  | Store.unset ↦ bare repo (LocationType.other [])
]

-- `status.LastKnownError != kopia.ErrAlreadyRepoExist`: the sentinel is an error of its own kind.
is_already_repo_exist_kind : ErrorKind → Bool
is_already_repo_exist_kind already_repo_exist = true
is_already_repo_exist_kind _ = false

unfoldable pub is_already_repo_exist : Error → Bool
unfolding is_already_repo_exist_kind
is_already_repo_exist e = is_already_repo_exist_kind e.kind

abbrev not_written : Error → Error
not_written = with_error "failed to write a VolumeBackup status: %v"

-- What follows a status that was to be written: the error of the write, or the attempt.
abbrev pub after_write : {A : Type 0} → Result (Unit {0}) → Attempt A → Attempt A
after_write (ok _) a = a
after_write (err e) a = again (not_written e)

abbrev done_or : Bool → Text → Attempt (Unit {0})
done_or true msg = done tt
done_or false msg = again (errorf msg)

module _ {W F : Type 0} (x : ExecutorServices W F) (floats : Floats F) (r : Retry)
    (flags : Flags) where
  unfoldable pub write_backup_status : Status F → Call W Unit
  unfolding write_volume_backup_status
  write_backup_status status =
      write_volume_backup_status x status flags.volume_backup_name flags.namespace

  -- A write, and then the attempt where it succeeds.
  abbrev pub write_then : {A : Type 0} → Status F → Attempt A → W → W × Attempt A
  write_then status a w = let (w', z) = write_backup_status status w in (w', after_write z a)

  -- The task of runKopiaCreateRepo after Status.
  unfoldable pub create_verdict : Status F → W → W × Attempt Unit
  unfolding is_already_repo_exist
  create_verdict status = elim status.last_known_error [
    | some e ↦ elim (is_already_repo_exist e) [
      | true ↦
          write_then (record status { last_known_error = none })
            (done_or status.done (codes "repo create status not available"))
      | false ↦ write_then status (again e)
    ]
    | none ↦ write_then status (done_or status.done (codes "repo create status not available"))
  ]

  -- That of runKopiaRepositoryConnect.
  unfoldable pub connect_verdict : Status F → W → W × Attempt Unit
  connect_verdict status w = elim status.last_known_error [
    | some e ↦ (w, again e)
    | none ↦ (w, done_or status.done (codes "repository connect status not available"))
  ]

  -- Those of setGlobalPolicy and runKopiaCompression, with their last message.
  unfoldable pub policy_verdict : Text → Status F → W → W × Attempt Unit
  policy_verdict msg status w = elim status.last_known_error [
    | some e ↦ write_then status (again e) w
    | none ↦ (w, done_or status.done msg)
  ]

  unfoldable pub run_kopia_create_repo : Repository → Run W Unit
  unfolding populate_access_details kopia_provider_type disable_ssl run retried create_verdict
  run_kopia_create_repo repo = do
    c ← run_result (
        get_create_command repo.path repo.name repo.password (kopia_provider_type repo.store)
          (disable_ssl repo.store))
    let e = new_create_executor x floats (populate_access_details c repo)
    st ← rephrase (with_error "failed to run repository create command: %v") (run_call (run x e))
    retried x r e create_verdict st

  unfoldable pub run_kopia_repository_connect : Repository → Run W Unit
  unfolding populate_access_details kopia_provider_type disable_ssl run retried connect_verdict
  run_kopia_repository_connect repo = do
    c ← run_result (
        get_connect_command repo.path repo.name repo.password (kopia_provider_type repo.store)
          (disable_ssl repo.store))
    let e = new_connect_executor x floats (populate_access_details c repo)
    st ← rephrase (with_error "failed to run repository connect  command: %v") (run_call (run x e))
    retried x r e connect_verdict st

  unfoldable pub set_global_policy : Run W Unit
  unfolding add_policy_setting run retried policy_verdict
  set_global_policy = do
    let e = new_set_global_policy_executor x floats (add_policy_setting set_global_policy_command)
    st ←
        rephrase (with_error "failed to run setting global policy command: %v") (run_call (run x e))
    retried x r e (policy_verdict (codes "global policy command status not available")) st

  unfoldable pub run_kopia_compression : Text → Run W Unit
  unfolding run retried policy_verdict
  run_kopia_compression source_path = do
    c ← run_result (get_compression_command source_path flags.compression)
    let e = new_compression_executor x floats c
    st ← rephrase (with_error "failed to run compression command: %v") (run_call (run x e))
    retried x r e (policy_verdict (codes "enabling compression command status not available")) st

  -- The task of isRepositoryExists: an error of the object store is written as the status.
  unfoldable pub exists_attempt : Result Bool → W → W × Attempt Bool
  exists_attempt (ok b) w = (w, done b)
  exists_attempt (err e) w =
      write_then (plain_status floats false (some e))
        (again (errorf (codes "repo check status not available"))) w

  abbrev then_exists : Repository → Result (Unit {0}) → Call W Bool
  then_exists repo (err e) w = (w, err e)
  then_exists repo (ok _) w =
      x.blob_exists (build_stork_backup_location repo) repo.name (codes "kopia.repository") w

  unfoldable pub exists_task : Repository → W → W × Attempt Bool
  unfolding build_stork_backup_location exists_attempt
  exists_task repo w =
      let (w₁, bucket) = x.get_bucket (build_stork_backup_location repo) w in
      let (w₂, z) = then_exists repo bucket w₁ in exists_attempt z w₂

  unfoldable pub is_repository_exists : Repository → Run W Bool
  unfolding exists_task
  is_repository_exists repo w =
      let (w', z) = r.do_retry W Bool (exists_task repo) w in (w', of_result z)
