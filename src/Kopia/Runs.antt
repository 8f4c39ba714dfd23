-- ===== src/Kopia/Runs.antt =====
-- The executors of pkg/kopia over the services that they call, their Run, and the ways in which
-- pkg/executor/kopia waits for them: until a Status says Done, or in task.DoRetryWithTimeout.
pub mod Waiting
pub mod Clean
use kdmp.Base.{if◌then◌else◌, ℕ, zero, suc, true, false, Option, none, some, Result, ok, err, Call}
use kdmp.Services.{Retry, Attempt}
use kdmp.Executor.{ExecutorServices, Status, Floats, Exit, BackupSummary}
use kdmp.Executor.Outcomes.{returned, failed, crash, unfinished, Run, of_result}
use kdmp.Kopia.{
  Command, create_cmd, backup_cmd, connect_cmd, restore_cmd, set_policy_cmd, delete_cmd,
  quick_maintenance_run_cmd, maintenance_run_cmd, maintenance_set_cmd, compression_cmd,
}
use kdmp.Kopia.Executors.{
  State, started, Executor, exit_error, failed_with, on_failure, create_settle, connect_settle,
  policy_settle, restore_settle, compression_settle, delete_settle, maintenance_run_settle,
  quick_maintenance_run_settle, maintenance_set_settle, summary_done, backup_status, policy_status,
  running_status, restore_status, summarized,
}
use kdmp.Kopia.Output.{get_backup_summary}

module _ {W F : Type 0} (x : ExecutorServices W F) (floats : Floats F) where
  unfoldable pub backup_settle : Exit → State BackupSummary → State BackupSummary
  backup_settle exit st =
      on_failure exit.failure
        (λ e.
          failed_with
            (exit_error "failed to run the backup command: %v stdout: %v stderr: %v" e.text exit)
            st)
        (summarized (get_backup_summary x.print_int x.unmarshal exit.out) st)

  -- NewCreateExecutor, and so on.
  abbrev pub new_create_executor : Command → Executor Unit (Status F)
  new_create_executor c = record {
    command = create_cmd x.environ c;
    settle = create_settle;
    status = summary_done floats;
  }

  abbrev pub new_backup_executor : Command → Executor BackupSummary (Status F)
  new_backup_executor c = record {
    command = backup_cmd x.environ c;
    settle = backup_settle;
    status = backup_status floats;
  }

  abbrev pub new_connect_executor : Command → Executor Unit (Status F)
  new_connect_executor c = record {
    command = connect_cmd x.environ c;
    settle = connect_settle;
    status = summary_done floats;
  }

  abbrev pub new_restore_executor : Command → Executor Unit (Option (Status F))
  new_restore_executor c = record {
    command = restore_cmd x.environ c;
    settle = restore_settle;
    status = restore_status floats;
  }

  abbrev pub new_set_global_policy_executor : Command → Executor Unit (Status F)
  new_set_global_policy_executor c = record {
    command = set_policy_cmd x.environ c;
    settle = policy_settle;
    status = policy_status floats;
  }

  abbrev pub new_delete_executor : Command → Executor Unit (Status F)
  new_delete_executor c = record {
    command = delete_cmd x.environ c;
    settle = delete_settle;
    status = running_status floats;
  }

  abbrev pub new_quick_maintenance_run_executor : Command → Executor Unit (Status F)
  new_quick_maintenance_run_executor c = record {
    command = quick_maintenance_run_cmd x.environ c;
    settle = quick_maintenance_run_settle;
    status = running_status floats;
  }

  abbrev pub new_maintenance_run_executor : Command → Executor Unit (Status F)
  new_maintenance_run_executor c = record {
    command = maintenance_run_cmd x.environ c;
    settle = maintenance_run_settle;
    status = running_status floats;
  }

  abbrev pub new_maintenance_set_executor : Command → Executor Unit (Status F)
  new_maintenance_set_executor c = record {
    command = maintenance_set_cmd x.environ c;
    settle = maintenance_set_settle;
    status = running_status floats;
  }

  abbrev pub new_compression_executor : Command → Executor Unit (Status F)
  new_compression_executor c = record {
    command = compression_cmd x.environ c;
    settle = compression_settle;
    status = running_status floats;
  }

module _ {W F : Type 0} (x : ExecutorServices W F) {S R : Type 0} (e : Executor S R) where
  -- What Run gives where Start succeeds.
  abbrev running : Result (Unit {0}) → Result (State S)
  running (ok _) = ok started
  running (err f) = err f

  -- Run: a command that does not start is an error.
  unfoldable pub run : Call W (State S)
  run w = let (w', r) = x.start e.command w in (w', running r)

  -- The goroutine up to a look at the executor.
  unfoldable pub settled : Option Exit → State S → State S
  settled none st = st
  settled (some exit) st =
      if st.waiting
      then record (e.settle exit (record st { err_out = exit.err_out })) { waiting = false }
      else st

  unfoldable pub observe : State S → W → W × State S
  observe st w = let (w', o) = x.look w in (w', settled o st)

module _ {W F : Type 0} where
  -- The end of the body of such a loop: an error or Done ends it.
  unfoldable pub judged : Status F → Run W Unit → Run W Unit
  judged status rest w = elim status.last_known_error [
    | some f ↦ (w, failed f)
    | none ↦ elim status.done [ true ↦ (w, returned tt) | false ↦ rest w ]
  ]

  -- After the status was written: where that failed, the loop goes on.
  unfoldable pub written : Result (Unit {0}) → Status F → Run W Unit → Run W Unit
  unfolding judged
  written (err _) status rest w = rest w
  written (ok _) status rest w = judged status rest w

  -- A loop's body, with what writes the status. `none` is a Status that panics.
  unfoldable pub looked : (Status F → Call W Unit) → Option (Status F) → Run W Unit → Run W Unit
  unfolding written
  looked write none rest w = (w, crash)
  looked write (some status) rest w = let (w', r) = write status w in written r status rest w'

-- `for { time.Sleep(…); status, err := e.Status(); … }`, with a number of looks. A loop that writes
-- no status has a `write` that does nothing.
module _ {W F : Type 0} (x : ExecutorServices W F) {S R : Type 0} (e : Executor S R)
    (view : R → Option (Status F)) (write : Status F → Call W Unit) where
  unfoldable pub await : ℕ → State S → Run W Unit
  unfolding looked observe settled
  await zero st w = (w, unfinished)
  await (suc n) st w =
      let (w', st') = observe x e st w in
      let rest = await n st' in looked write (view (e.status st')) rest w'

-- A task of DoRetryWithTimeout over an executor, by what it says to each status.
module _ {W F : Type 0} (x : ExecutorServices W F) (r : Retry) {S : Type 0}
    (e : Executor S (Status F)) (verdict : Status F → W → W × Attempt Unit) where
  unfoldable pub status_task : State S × W → (State S × W) × Attempt Unit
  unfolding observe settled
  status_task (st, w) =
      let (w', st') = observe x e st w in
      let (w'', a) = verdict (e.status st') w' in ((st', w''), a)

  unfoldable pub retried : State S → Run W Unit
  unfolding status_task
  retried st w =
      let ((st', w'), a) = r.do_retry (State S × W) Unit status_task (st, w) in (w', of_result a)
