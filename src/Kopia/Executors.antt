-- ===== src/Kopia/Executors.antt =====
-- The executors of pkg/kopia: what the goroutine of each Run makes of the end of its process, and
-- what each Status says. A goroutine's writes count as one step.
use kdmp.Base.{
  Bool, true, false, Option, none, some, [], ◌∷◌, Text, String, Error, errorf, Result, ok, err,
  format,
}
use kdmp.Base.Strings.{split}
use kdmp.Executor.{Status, Floats, Exit, BackupSummary}
use kdmp.Kopia.{ExecCmd}
use kdmp.Kopia.Output.{newline, parse_std_err, get_init_summary, get_connect_summary, restored_size}

-- The fields that change of the executors' structs: an executor with a summary has no flag isRunning,
-- and one with the flag no summary. `waiting` says that the goroutine is still in Wait; `err_out` is
-- the error output of a process that has ended.
pub record State (S : Type 0) : Type 0 where
  pub last_error : Option Error
  pub summary : Option S
  pub is_running : Bool
  pub waiting : Bool
  pub err_out : Text

-- After Start.
abbrev pub started : {S : Type 0} → State S
started = record {
  last_error = none;
  summary = none;
  is_running = true;
  waiting = true;
  err_out = [];
}

-- An executor: its command, its goroutine after Wait, and its Status, which gives an R.
pub record Executor (S R : Type 0) : Type 0 where
  pub command : ExecCmd
  pub settle : Exit → State S → State S
  pub status : State S → R

-- The message of a goroutine about a process that has failed.
abbrev pub exit_error : String → Text → Exit → Error
exit_error msg reason x = errorf (format msg (reason ∷ x.out ∷ x.err_out ∷ []))

abbrev pub failed_with : {S : Type 0} → Error → State S → State S
failed_with e st = record st { last_error = some e }

abbrev pub stopped : {S : Type 0} → State S → State S
stopped st = record st { is_running = false }

abbrev pub summarized : {S : Type 0} → Result S → State S → State S
summarized (ok s) st = record st { summary = some s }
summarized (err e) st = failed_with e st

abbrev pub on_failure : {A : Type 0} → Option Error → (Error → A) → A → A
on_failure none f a = a
on_failure (some e) f a = f e

unfoldable pub create_settle : Exit → State Unit → State Unit
create_settle x st =
    on_failure x.failure (λ e. failed_with (parse_std_err x.err_out) st)
      (summarized (get_init_summary x.err_out) st)

unfoldable pub connect_settle : Exit → State Unit → State Unit
connect_settle x st =
    on_failure x.failure
      (λ e.
        failed_with
          (exit_error "failed to run the kopia connect command: %v stdout: %v stderr: %v" e.text x)
          st)
      (summarized (get_connect_summary x.err_out) st)

unfoldable pub policy_settle : Exit → State Unit → State Unit
policy_settle x st =
    on_failure x.failure
      (λ e.
        failed_with
          (exit_error "failed to run the kopia policy command: %v stdout: %v stderr: %v" e.text x)
          st)
      st

-- restore.go and compression.go: the flag stays where the process has failed.
unfoldable pub restore_settle : Exit → State Unit → State Unit
restore_settle x st =
    on_failure x.failure
      (λ e.
        failed_with
          (exit_error "failed to run the restore command: %v stdout: %v stderr: %v" e.text x) st)
      (stopped st)

unfoldable pub compression_settle : Exit → State Unit → State Unit
compression_settle x st =
    on_failure x.failure
      (λ e.
        failed_with
          (exit_error
            "failed to run the kopia compression setting command: %v stdout: %v stderr: %v" e.text
            x)
          st)
      (stopped st)

unfoldable pub delete_settle : Exit → State Unit → State Unit
delete_settle x st =
    on_failure x.failure
      (λ e. stopped (
        failed_with
          (exit_error "failed to run the snapshot delete command: %v  stdout: %v stderr: %v" e.text
            x)
          st))
      (stopped st)

-- The three maintenance commands, whose message begins with what the process wrote to its error
-- output instead of its error.
abbrev maintenance_settle : String → Exit → State Unit → State Unit
maintenance_settle msg x st =
    on_failure x.failure (λ e. stopped (failed_with (exit_error msg x.err_out x) st)) (stopped st)

unfoldable pub maintenance_run_settle : Exit → State Unit → State Unit
maintenance_run_settle =
    maintenance_settle "failed to run the repo maintenance command: %v stdout: %v stderr: %v"

unfoldable pub quick_maintenance_run_settle : Exit → State Unit → State Unit
quick_maintenance_run_settle =
    maintenance_settle "failed to run the repo quick maintenance command: %v stdout: %v stderr: %v"

unfoldable pub maintenance_set_settle : Exit → State Unit → State Unit
maintenance_set_settle =
    maintenance_settle "failed to run the repo maintenance set command: %v stdout: %v stderr: %v"

module _ {F : Type 0} (floats : Floats F) where
  -- &cmdexec.Status{Done: …, LastKnownError: …}.
  abbrev pub plain_status : Bool → Option Error → Status F
  plain_status done e = record {
    progress_percentage = floats.zero;
    total_bytes_processed = 0;
    total_bytes = 0;
    snapshot_id = [];
    done = done;
    last_known_error = e;
  }

  abbrev pub error_or : {A : Type 0} → (Status F → A) → Option Error → A → A
  error_or f (some e) rest = f (plain_status true (some e))
  error_or f none rest = rest

  abbrev summary_status : {S : Type 0} → (S → Status F) → Option S → Status F
  summary_status f (some s) = f s
  summary_status f none = plain_status false none

  -- Status of create.go and of connect.go.
  unfoldable pub summary_done : State Unit → Status F
  summary_done st =
      error_or (λ s. s) st.last_error (summary_status (λ _. plain_status true none) st.summary)

  unfoldable pub backup_status : State BackupSummary → Status F
  backup_status st =
      error_or (λ s. s) st.last_error
        (summary_status
          (λ s. record {
            progress_percentage = floats.hundred;
            total_bytes_processed = s.total_file_size;
            total_bytes = s.total_file_size;
            snapshot_id = s.id;
            done = true;
            last_known_error = none;
          })
          st.summary)

  -- Status of global_policy.go, which does not ask whether the process has ended.
  unfoldable pub policy_status : State Unit → Status F
  policy_status st = error_or (λ s. s) st.last_error (plain_status true none)

  -- Status of delete.go, compression.go, and of the three files on maintenance.
  unfoldable pub running_status : State Unit → Status F
  running_status st =
      error_or (λ s. s) st.last_error
        (elim st.is_running [ true ↦ plain_status false none | false ↦ plain_status true none ])

  abbrev sized_status : Option F → Option (Status F)
  sized_status none = none
  sized_status (some size) = some (record (plain_status true none) {
    total_bytes = floats.to_uint size;
    total_bytes_processed = floats.to_uint size;
  })

  -- Status of restore.go, none where it panics.
  unfoldable pub restore_status : State Unit → Option (Status F)
  restore_status st = error_or some st.last_error (elim st.is_running [
    | true ↦ some (plain_status false none)
    | false ↦ sized_status (restored_size floats floats.zero (split newline st.err_out))
  ])
