-- ===== src/Executor/Delete.antt =====
-- The deletion of a kopia snapshot: pkg/executor/kopia/kopiadelete.go.
pub mod Deleted
use kdmp.Base.{ℕ, some, [], ◌∷◌, Text, Error, errorf, Result, ok, err, format}
use kdmp.Base.Results.{return}
use kdmp.Services.{Retry}
use kdmp.Executor.{ExecutorServices, Floats, Flags, Repository, DeleteStatus}
use kdmp.Executor.Outcomes.{Run, run_call, failure, rephrase, handle, with_error, ◌>>=◌, ◌>>◌}
use kdmp.Executor.Credentials.{parse_cloud_cred}
use kdmp.Executor.VolumeBackups.{write_volume_backup_delete_status}
use kdmp.Executor.Repositories.{run_kopia_repository_connect, frame_backup_path}
use kdmp.Executor.Backup.{named}
use kdmp.Kopia.Build.{get_delete_command}
use kdmp.Kopia.Runs.{new_delete_executor, run, await}

-- The name and the namespace of the VolumeBackupDelete.
module _ {W F : Type 0} (x : ExecutorServices W F) (floats : Floats F) (r : Retry) (flags : Flags)
    (name namespace : Text) where
  unfoldable pub run_kopia_delete : ℕ → Text → Run W Unit
  unfolding run await
  run_kopia_delete looks snapshot_id = do
    let e = new_delete_executor x floats (get_delete_command snapshot_id)
    st ←
        rephrase
          (named "running delete backup snapshot command for snapshotID [%v] failed: %v"
            snapshot_id)
          (run_call (run x e))
    await x e some (λ status. return tt) looks st

  abbrev pub write_failure : Error → Run W Unit
  write_failure e =
      rephrase
        (λ f. errorf (
          format "failed in updating VolumeBackupDelete CR [%s:%s]: %v"
            (name ∷ namespace ∷ f.text ∷ [])))
        (run_call (write_volume_backup_delete_status x DeleteStatus.failed e.text name namespace))

  -- A failure is written to the object, and is the error; a write that fails is the error instead.
  unfoldable pub delete_failed : Error → Run W Unit
  delete_failed e = do write_failure e; failure (errorf e.text)

  unfoldable pub delete_with : ℕ → Text → Result Repository → Run W Unit
  unfolding delete_failed
  delete_with looks snapshot_id (err e) =
      delete_failed (with_error "failed in parsing backuplocation: %s" e)
  delete_with looks snapshot_id (ok repo) = do
    let named_repo = record repo { name = frame_backup_path flags.kopia_repo }
    handle (λ e. delete_failed (named "repository [%v] connect failed: %v" named_repo.name e))
        (run_kopia_repository_connect x floats r flags named_repo)
    handle (λ e. delete_failed (named "snapshot [%v] delete failed: %v" snapshot_id e))
        (run_kopia_delete looks snapshot_id)

  unfoldable pub run_delete : ℕ → Text → Run W Unit
  unfolding delete_with parse_cloud_cred
  run_delete looks snapshot_id w =
      let (w', z) = parse_cloud_cred x w in delete_with looks snapshot_id z w'
