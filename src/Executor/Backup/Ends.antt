-- ===== src/Executor/Backup/Ends.antt =====
-- A kopia backup comes to an end.
use kdmp.Base.{ℕ, true, Option, none, some, Text, Error, Result, ok, err, ◌≡◌, refl, inl, inr, ◌⊎◌}
use kdmp.Services.{Retry}
use kdmp.Executor.{ExecutorServices, Floats, Flags, Repository, Status, Exit, BackupSummary}
use kdmp.Executor.Repositories.{write_backup_status}
use kdmp.Executor.Backup.{run_kopia_backup, type_text}
use kdmp.Kopia.{Command}
use kdmp.Kopia.Build.{get_backup_command}
use kdmp.Kopia.Output.{get_backup_summary}
use kdmp.Kopia.Executors.{State, started, summarized, backup_status}
use kdmp.Kopia.Runs.{new_backup_executor, run, backup_settle}
use kdmp.Kopia.Runs.Waiting.{EndsWithin, Ended, IsOver, await-Ended}

module _ {W F : Type 0} (x : ExecutorServices W F) (floats : Floats F) (r : Retry) (flags : Flags)
    (c : Command) where
  abbrev pub Over : State BackupSummary → Type 0
  Over st =
      IsOver x (new_backup_executor x floats c) (write_backup_status x floats r flags)
        (backup_status floats st)

  failed-Over : (st : State BackupSummary) (e : Error) → st.last_error ≡ some e → Over st
  unfolding backup_status
  failed-Over st e p = rw p (inl refl)

  summary-Over :
      (st : State BackupSummary) (s : BackupSummary) (f : Option Error)
      → st.last_error ≡ f
      → st.summary ≡ some s
      → Over st
  unfolding backup_status
  summary-Over st s (some e) p q = rw p (inl refl)
  summary-Over st s none p q = rw (p, q) (inl refl)

  summarized-Over :
      (z : Result BackupSummary) (st : State BackupSummary)
      → Over (record (summarized z st) { waiting = kdmp.Base.false })
  summarized-Over (ok s) st = summary-Over _ s st.last_error refl refl
  summarized-Over (err e) st = failed-Over _ e refl

  settle-Over :
      (exit : Exit) (st : State BackupSummary) (f : Option Error)
      → exit.failure ≡ f
      → Over (record (backup_settle x floats exit st) { waiting = kdmp.Base.false })
  unfolding backup_settle
  settle-Over exit st (some e) p = rw p (failed-Over _ _ refl)
  settle-Over exit st none p =
      rw p (summarized-Over (get_backup_summary x.print_int x.unmarshal exit.out) st)

module _ {W F : Type 0} (x : ExecutorServices W F) (floats : Floats F) (r : Retry)
    (flags : Flags) where
  -- A runKopiaBackup whose command starts, whose process ends within some number of looks, and whose
  -- statuses can all be written, returns, without an error or with one, when it is given that many.
  pub run_kopia_backup-Ended :
      (looks : ℕ) (repo : Repository) (source_path : Text) (c : Command) (w w₁ : W)
      → ((status : Status F) (w : W) → (write_backup_status x floats r flags status w).1 ≡ ok tt)
      → get_backup_command repo.path repo.name repo.password (type_text repo.store) source_path
        ≡ ok c
      → x.start (new_backup_executor x floats c).command w ≡ (w₁, ok tt)
      → EndsWithin x
          (new_backup_executor x floats c)
          (write_backup_status x floats r flags)
          looks
          w₁
      → Ended x
          (new_backup_executor x floats c)
          (write_backup_status x floats r flags)
          (run_kopia_backup x floats r flags looks repo source_path w).1
  unfolding run_kopia_backup run
  run_kopia_backup-Ended looks repo source_path c w w₁ always q p ends =
      rw (q, p)
        (await-Ended x (new_backup_executor x floats c) (write_backup_status x floats r flags)
          always (λ exit st. settle-Over x floats r flags c exit st exit.failure refl) looks started
          w₁ refl ends)
