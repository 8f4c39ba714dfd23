-- ===== src/Executor/Backup.antt =====
-- A kopia backup: runBackup and runKopiaBackup of pkg/executor/kopia/kopiabackup.go.
pub mod Saved
pub mod Ends
pub mod Reported
use kdmp.Base.{
  ℕ, Bool, true, false, some, [], ◌∷◌, Text, codes, Error, errorf, Result, ok, err, String, format,
  is_empty, if◌then◌else◌,
}
use kdmp.Services.{Retry}
use kdmp.Executor.{ExecutorServices, Floats, Flags, Repository, Store}
use kdmp.Executor.Outcomes.{
  Run, run_call, run_result, result, failure, rephrase, handle, prefixed, with_error, ◌>>=◌, ◌>>◌,
}
use kdmp.Executor.Credentials.{parse_cloud_cred}
use kdmp.Executor.VolumeBackups.{create_volume_backup}
use kdmp.Executor.Repositories.{
  frame_backup_path, write_backup_status, is_repository_exists, run_kopia_create_repo,
  set_global_policy, run_kopia_repository_connect, run_kopia_compression,
}
use kdmp.Kopia.Build.{get_backup_command}
use kdmp.Kopia.Executors.{plain_status}
use kdmp.Kopia.Runs.{new_backup_executor, run, await}

-- `string(repository.Type)`.
unfoldable pub type_text : Store → Text
type_text (Store.s3 _) = codes "s3"
type_text (Store.google _) = codes "google"
type_text (Store.azure _) = codes "azure"
type_text Store.unset = []

-- `fmt.Sprintf("… %s …: %v", name, err)`.
abbrev pub named : String → Text → Error → Error
named msg name e = errorf (format msg (name ∷ e.text ∷ []))

module _ {W F : Type 0} (x : ExecutorServices W F) (floats : Floats F) (r : Retry)
    (flags : Flags) where
  -- With the number of looks at the process.
  unfoldable pub run_kopia_backup : ℕ → Repository → Text → Run W Unit
  unfolding run write_backup_status await type_text
  run_kopia_backup looks repo source_path = do
    c ←
        run_result
          (get_backup_command repo.path repo.name repo.password (type_text repo.store) source_path)
    let e = new_backup_executor x floats c
    st ← rephrase (with_error "failed to run backup command: %v") (run_call (run x e))
    await x e some (write_backup_status x floats r flags) looks st

  -- A repository that is not there is created, and its policy set.
  unfoldable pub prepare_repository : Repository → Bool → Run W Unit
  prepare_repository repo true = result tt
  prepare_repository repo false = do
    rephrase (λ e. prefixed (format "repository %s creation failed" (repo.name ∷ [])) e)
        (run_kopia_create_repo x floats r flags repo)
    rephrase (named "setting global policy for repository %s failed: %v" repo.name)
        (set_global_policy x floats r flags)

  -- A connection that fails is written as the status; the error returned then is made of the nil
  -- error of that write.
  unfoldable pub connect_failed : Repository → Error → Run W Unit
  connect_failed repo e = do
    rephrase (with_error "failed to write a VolumeBackup status: %v")
        (run_call (write_backup_status x floats r flags (plain_status floats false (some e))))
    failure
        (errorf (format "connecting to repository %s failed: %v" (repo.name ∷ codes "<nil>" ∷ [])))

  unfoldable pub compress : Text → Run W Unit
  compress source_path =
      if is_empty flags.compression
      then result tt
      else rephrase (named "compression failed for path %s: %v" source_path)
          (run_kopia_compression x floats r flags source_path)

  -- runBackup after the credentials were parsed and the volume backup was created.
  unfoldable pub backup_repository : ℕ → Text → Repository → Run W Unit
  unfolding prepare_repository connect_failed compress
  backup_repository looks source_path repo = do
    exists ←
        rephrase
          (λ e.
            prefixed (named "repository exists check for repo %s failed: %v" repo.name e).text e)
          (is_repository_exists x floats r flags repo)
    prepare_repository repo exists
    handle (connect_failed repo) (run_kopia_repository_connect x floats r flags repo)
    compress source_path
    rephrase (named "backup failed for repository %s: %v" repo.name)
        (run_kopia_backup looks repo source_path)

  unfoldable pub create_backup_object : Text → Run W Unit
  unfolding create_volume_backup
  create_backup_object repo_name =
      if is_empty flags.volume_backup_name
      then result tt
      else run_call (
          create_volume_backup x floats flags.volume_backup_name flags.namespace repo_name
            flags.backup_location_name flags.backup_location_namespace)

  -- What follows the credentials.
  unfoldable pub backup_with : ℕ → Text → Result Repository → Run W Unit
  unfolding create_backup_object backup_repository
  backup_with looks source_path (err e) = do
    create_backup_object []
    run_call (write_backup_status x floats r flags (plain_status floats false (some e)))
    failure (with_error "parse backuplocation: %s" e)
  backup_with looks source_path (ok repo) = do
    let named_repo = record repo { name = frame_backup_path flags.kopia_repo }
    create_backup_object named_repo.name
    backup_repository looks source_path named_repo

  unfoldable pub run_backup : ℕ → Text → Run W Unit
  unfolding backup_with parse_cloud_cred
  run_backup looks source_path w =
      let (w', z) = parse_cloud_cred x w in backup_with looks source_path z w'
