-- ===== src/Executor/Restore.antt =====
-- A kopia restore: pkg/executor/kopia/restore.go. The namespace of the flags is that of the restore.
pub mod Restored
use kdmp.Base.{
  ℕ, false, some, [], ◌∷◌, Text, codes, Error, errorf, Result, ok, err, format, String, is_empty,
  if◌then◌else◌,
}
use kdmp.Services.{Retry}
use kdmp.Executor.{ExecutorServices, Floats, Flags, Repository}
use kdmp.Executor.Outcomes.{
  Run, run_call, run_result, failure, rephrase, handle, with_error, ◌>>=◌, ◌>>◌,
}
use kdmp.Executor.Credentials.{parse_cloud_cred}
use kdmp.Executor.Repositories.{write_backup_status, run_kopia_repository_connect}
use kdmp.Executor.Backup.{type_text}
use kdmp.Kopia.Build.{get_restore_command}
use kdmp.Kopia.Executors.{plain_status}
use kdmp.Kopia.Runs.{new_restore_executor, run, await}

module _ {W F : Type 0} (x : ExecutorServices W F) (floats : Floats F) (r : Retry)
    (flags : Flags) where
  unfoldable pub run_kopia_restore : ℕ → Repository → Text → Text → Run W Unit
  unfolding run write_backup_status await type_text
  run_kopia_restore looks repo target_path snapshot_id = do
    c ← run_result (
        get_restore_command repo.path repo.name repo.password (type_text repo.store) target_path
          snapshot_id)
    let e = new_restore_executor x floats c
    st ← rephrase (with_error "failed to run restore command: %v") (run_call (run x e))
    await x e (λ s. s) (write_backup_status x floats r flags) looks st

  abbrev pub write_restore_error : String → Error → Run W Unit
  write_restore_error msg e =
      rephrase (with_error msg)
        (run_call (write_backup_status x floats r flags (plain_status floats false (some e))))

  -- As in runBackup, with the nil error of the write.
  unfoldable pub restore_connect_failed : Repository → Error → Run W Unit
  restore_connect_failed repo e = do
    write_restore_error "failed to write a VolumeBackup status: %v" e
    failure (errorf (format "repository %s connect failed: %v" (repo.name ∷ codes "<nil>" ∷ [])))

  unfoldable pub restore_with : ℕ → Text → Text → Result Repository → Run W Unit
  unfolding restore_connect_failed
  restore_with looks snapshot_id target_path (err e) = do
    write_restore_error "runRestore: Updating volume backup cr failed with error %s" e
    failure (with_error "parse backuplocation failed: %s" e)
  restore_with looks snapshot_id target_path (ok repo) = do
    let named_repo = record repo { name = flags.kopia_repo }
    handle (restore_connect_failed named_repo)
        (run_kopia_repository_connect x floats r flags named_repo)
    rephrase (with_error "restore failed: %v")
        (run_kopia_restore looks named_repo target_path snapshot_id)

  unfoldable pub run_restore : ℕ → Text → Text → Run W Unit
  unfolding restore_with parse_cloud_cred
  run_restore looks snapshot_id target_path w =
      let (w', z) = parse_cloud_cred x w in restore_with looks snapshot_id target_path z w'

  -- The checks of newRestoreCommand before runRestore.
  unfoldable pub restore_command : ℕ → Text → Text → Run W Unit
  unfolding run_restore
  restore_command looks snapshot_id target_path =
      if is_empty flags.backup_location_name
      then failure (errorf (codes "backup-location has to be provided for kopia restores"))
      else if is_empty target_path
      then failure (errorf (codes "target-path argument is required for kopia restores"))
      else run_restore looks snapshot_id target_path
