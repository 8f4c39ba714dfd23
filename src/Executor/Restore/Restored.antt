-- ===== src/Executor/Restore/Restored.antt =====
-- What a restore has done when it ends without an error.
use kdmp.Base.{
  ℕ, arith, none, some, [], ◌∷◌, Text, codes, Error, errorf, format, Result, ok, err, ◌≡◌, refl, ap,
}
use kdmp.Services.{Retry}
use kdmp.Executor.{ExecutorServices, Floats, Flags, Repository, Status, Exit}
use kdmp.Executor.Outcomes.{
  returned, run_call, run_result, rephrase, handle, with_error, bind_returned, handle_returned,
  rephrase_returned, run_call_returned, then-failure,
}
use kdmp.Executor.Credentials.{parse_cloud_cred}
use kdmp.Executor.Repositories.{run_kopia_repository_connect, write_backup_status}
use kdmp.Executor.Backup.{type_text}
use kdmp.Executor.Restore.{
  run_restore, restore_with, run_kopia_restore, restore_connect_failed, write_restore_error,
}
use kdmp.Kopia.{Command, restore_cmd}
use kdmp.Kopia.Build.{get_restore_command}
use kdmp.Kopia.Executors.{State, restore_settle}
use kdmp.Kopia.Runs.{new_restore_executor, run}
use kdmp.Kopia.Runs.Waiting.{Final, run-started}
use kdmp.Kopia.Runs.Clean.{Clean, await-Clean, restore-final}

module _ {W F : Type 0} (x : ExecutorServices W F) (floats : Floats F) (r : Retry)
    (flags : Flags) where
  restore-told :
      (exit : Exit) (st : State Unit) (f : Error)
      → exit.failure ≡ some f
      → ¬ ((restore_settle exit st).last_error ≡ none)
  unfolding restore_settle
  restore-told exit st f p q = let q' = rw p at q in absurd (ground arith)

  -- The command of the restore was made and started, its process seen to end without a failure, and
  -- a status that says Done and has no error written last.
  abbrev pub Restored : Repository → Text → Text → W → W → Type 0
  Restored repo target_path snapshot_id w w' =
      (c : Command) × (w₁ : W) × (get_restore_command repo.path repo.name repo.password
          (type_text repo.store) target_path snapshot_id
        ≡ ok c)
      × (x.start (restore_cmd x.environ c) w ≡ (w₁, ok tt))
      × Clean x
      × ((status : Status F) × Final (write_backup_status x floats r flags) status w')

  run_kopia_restore-Restored :
      (looks : ℕ) (repo : Repository) (target_path snapshot_id : Text) (w w' : W)
      → run_kopia_restore x floats r flags looks repo target_path snapshot_id w ≡ (w', returned tt)
      → Restored repo target_path snapshot_id w w'
  unfolding run_kopia_restore
  run_kopia_restore-Restored looks repo target_path snapshot_id w w' h =
      let z =
        get_restore_command repo.path repo.name repo.password (type_text repo.store) target_path
          snapshot_id in
      let (w₁, c, p, h₁) = bind_returned (run_result z) _ w w' tt h in
      let made = run_call_returned (λ v. (v, z)) w w₁ c p in
      let e = new_restore_executor x floats c in
      let msg = with_error "failed to run restore command: %v" in
      let (w₂, st, p₂, h₂) = bind_returned (rephrase msg (run_call (run x e))) _ w₁ w' tt h₁ in
      let (q, started_st) = run-started x e w₁ w₂ st (
        run_call_returned (run x e) w₁ w₂ st
          (rephrase_returned msg (run_call (run x e)) w₁ w₂ st p₂)) in
      let (clean, final) =
        await-Clean x e restore-told (λ s. s) (write_backup_status x floats r flags)
          (restore-final floats) looks w₂ w' (rw started_st at h₂) in
      (c, w₂, ap (λ v. v.1) made, rw (ap (λ v. v.0) made) q, clean, final)

  connect_failed-never :
      (repo : Repository) (e : Error) (w s : W) (a : Unit {0})
      → ¬ (restore_connect_failed x floats r flags repo e w ≡ (s, returned a))
  unfolding restore_connect_failed
  connect_failed-never repo e w s a h =
      then-failure
        (write_restore_error x floats r flags "failed to write a VolumeBackup status: %v" e)
        (errorf (format "repository %s connect failed: %v" (repo.name ∷ codes "<nil>" ∷ []))) w s a
        h

  restore_with-Restored :
      (looks : ℕ) (snapshot_id target_path : Text) (z : Result Repository) (w w' : W)
      → restore_with x floats r flags looks snapshot_id target_path z w ≡ (w', returned tt)
      → (repo : Repository) × (w₁ : W) × (z ≡ ok repo)
        × (run_kopia_repository_connect x floats r flags (record repo { name = flags.kopia_repo }) w
            ≡ (w₁, returned tt))
        × Restored (record repo { name = flags.kopia_repo }) target_path snapshot_id w₁ w'
  unfolding restore_with
  restore_with-Restored looks snapshot_id target_path (err e) w w' h = absurd (
      then-failure
        (write_restore_error x floats r flags
          "runRestore: Updating volume backup cr failed with error %s" e)
        (with_error "parse backuplocation failed: %s" e) w w' tt h)
  restore_with-Restored looks snapshot_id target_path (ok repo) w w' h =
      let named_repo = record repo { name = flags.kopia_repo } in
      let connect = run_kopia_repository_connect x floats r flags named_repo in
      let failing = restore_connect_failed x floats r flags named_repo in
      let (w₁, u, p, h₁) = bind_returned (handle failing connect) _ w w' tt h in
      (
        repo,
        w₁,
        refl,
        handle_returned failing connect w w₁ tt (connect_failed-never named_repo) p,
        run_kopia_restore-Restored looks named_repo target_path snapshot_id w₁ w' (
            rephrase_returned (with_error "restore failed: %v")
              (run_kopia_restore x floats r flags looks named_repo target_path snapshot_id) w₁ w' tt
              h₁),
      )

  -- A runRestore that ends without an error has read the credentials, connected to the repository of
  -- the flags, made the command that restores the snapshot into the path and started it, has seen a
  -- process end without a failure, and has last written a status that says Done and has no error.
  pub run_restore-Restored :
      (looks : ℕ) (snapshot_id target_path : Text) (w w' : W)
      → run_restore x floats r flags looks snapshot_id target_path w ≡ (w', returned tt)
      → (repo : Repository) × (w₁ : W) × (w₂ : W) × (parse_cloud_cred x w ≡ (w₁, ok repo))
        × (run_kopia_repository_connect x floats r flags
              (record repo { name = flags.kopia_repo })
              w₁
            ≡ (w₂, returned tt))
        × Restored (record repo { name = flags.kopia_repo }) target_path snapshot_id w₂ w'
  unfolding run_restore
  run_restore-Restored looks snapshot_id target_path w w' h =
      let (repo, w₂, p, q, d) =
        restore_with-Restored looks snapshot_id target_path (parse_cloud_cred x w).1
          (parse_cloud_cred x w).0 w' h in
      (repo, (parse_cloud_cred x w).0, w₂, (λ i. ((parse_cloud_cred x w).0, p i)), q, d)
