-- ===== src/Executor/Delete/Deleted.antt =====
-- What the deletion of a snapshot has done when it ends without an error.
use kdmp.Base.{ℕ, arith, some, Text, Error, errorf, Result, ok, err, ◌≡◌, refl}
use kdmp.Base.Results.{return}
use kdmp.Services.{Retry}
use kdmp.Executor.{ExecutorServices, Floats, Flags, Repository, DeleteStatus}
use kdmp.Executor.Outcomes.{
  returned, run_call, rephrase, handle, with_error, bind_returned, handle_returned,
  rephrase_returned, run_call_returned, then-failure,
}
use kdmp.Executor.Credentials.{parse_cloud_cred}
use kdmp.Executor.Repositories.{run_kopia_repository_connect, frame_backup_path}
use kdmp.Executor.Backup.{named}
use kdmp.Executor.Delete.{run_delete, delete_with, run_kopia_delete, delete_failed, write_failure}
use kdmp.Kopia.{delete_cmd}
use kdmp.Kopia.Build.{get_delete_command}
use kdmp.Kopia.Executors.{started, delete_settle}
use kdmp.Kopia.Runs.{new_delete_executor, run}
use kdmp.Kopia.Runs.Waiting.{run-started}
use kdmp.Kopia.Runs.Clean.{Clean, await-Clean, running-final}

module _ {W F : Type 0} (x : ExecutorServices W F) (floats : Floats F) (r : Retry) (flags : Flags)
    (name namespace : Text) where
  -- The command of the deletion was started and its process seen to end without a failure.
  abbrev pub Deleted : Text → W → Type 0
  Deleted snapshot_id w =
      (w₁ : W) × (x.start (delete_cmd x.environ (get_delete_command snapshot_id)) w ≡ (w₁, ok tt))
      × Clean x

  delete-told :
      (exit : kdmp.Executor.Exit) (st : kdmp.Kopia.Executors.State Unit) (f : Error)
      → exit.failure ≡ some f
      → ¬ ((delete_settle exit st).last_error ≡ kdmp.Base.none)
  unfolding delete_settle
  delete-told exit st f p q = let q' = rw p at q in absurd (ground arith)

  run_kopia_delete-Deleted :
      (looks : ℕ) (snapshot_id : Text) (w w' : W)
      → run_kopia_delete x floats r flags name namespace looks snapshot_id w ≡ (w', returned tt)
      → Deleted snapshot_id w
  unfolding run_kopia_delete
  run_kopia_delete-Deleted looks snapshot_id w w' h =
      let e = new_delete_executor x floats (get_delete_command snapshot_id) in
      let msg =
        named "running delete backup snapshot command for snapshotID [%v] failed: %v" snapshot_id in
      let (w₁, st, p, h₁) = bind_returned (rephrase msg (run_call (run x e))) _ w w' tt h in
      let (q, started_st) = run-started x e w w₁ st (
        run_call_returned (run x e) w w₁ st
          (rephrase_returned msg (run_call (run x e)) w w₁ st p)) in
      let (clean, _) =
        await-Clean x e delete-told some (λ status. return tt) (running-final floats) looks w₁ w'
          (rw started_st at h₁) in
      (w₁, q, clean)

  delete_failed-never :
      (e : Error) (w s : W) (a : Unit {0})
      → ¬ (delete_failed x floats r flags name namespace e w ≡ (s, returned a))
  unfolding delete_failed
  delete_failed-never e w s a h =
      then-failure (write_failure x floats r flags name namespace e) (errorf e.text) w s a h

  delete_with-Deleted :
      (looks : ℕ) (snapshot_id : Text) (z : Result Repository) (w w' : W)
      → delete_with x floats r flags name namespace looks snapshot_id z w ≡ (w', returned tt)
      → (repo : Repository) × (w₁ : W) × (z ≡ ok repo)
        × (run_kopia_repository_connect x floats r flags
              (record repo { name = frame_backup_path flags.kopia_repo })
              w
            ≡ (w₁, returned tt))
        × Deleted snapshot_id w₁
  unfolding delete_with
  delete_with-Deleted looks snapshot_id (err e) w w' h =
      absurd (delete_failed-never (with_error "failed in parsing backuplocation: %s" e) w w' tt h)
  delete_with-Deleted looks snapshot_id (ok repo) w w' h =
      let named_repo = record repo { name = frame_backup_path flags.kopia_repo } in
      let connect = run_kopia_repository_connect x floats r flags named_repo in
      let failing = λ (e : Error).
        delete_failed x floats r flags name namespace
          (named "repository [%v] connect failed: %v" named_repo.name e) in
      let (w₁, u, p, h₁) = bind_returned (handle failing connect) _ w w' tt h in
      (
        repo,
        w₁,
        refl,
        handle_returned failing connect w w₁ tt
            (λ e v s a k.
              delete_failed-never (named "repository [%v] connect failed: %v" named_repo.name e) v s
                a k)
            p,
        run_kopia_delete-Deleted looks snapshot_id w₁ w' (
            handle_returned
              (λ e.
                delete_failed x floats r flags name namespace
                  (named "snapshot [%v] delete failed: %v" snapshot_id e))
              (run_kopia_delete x floats r flags name namespace looks snapshot_id) w₁ w' tt
              (λ e v s a k.
                delete_failed-never (named "snapshot [%v] delete failed: %v" snapshot_id e) v s a k)
              h₁),
      )

  -- A runDelete that ends without an error has read the credentials, connected to the repository of
  -- the flags and started the deletion of the snapshot, and has seen a process end without a failure.
  pub run_delete-Deleted :
      (looks : ℕ) (snapshot_id : Text) (w w' : W)
      → run_delete x floats r flags name namespace looks snapshot_id w ≡ (w', returned tt)
      → (repo : Repository) × (w₁ : W) × (w₂ : W) × (parse_cloud_cred x w ≡ (w₁, ok repo))
        × (run_kopia_repository_connect x floats r flags
              (record repo { name = frame_backup_path flags.kopia_repo })
              w₁
            ≡ (w₂, returned tt))
        × Deleted snapshot_id w₂
  unfolding run_delete
  run_delete-Deleted looks snapshot_id w w' h =
      let (repo, w₂, p, q, d) =
        delete_with-Deleted looks snapshot_id (parse_cloud_cred x w).1 (parse_cloud_cred x w).0 w'
          h in
      (repo, (parse_cloud_cred x w).0, w₂, (λ i. ((parse_cloud_cred x w).0, p i)), q, d)
