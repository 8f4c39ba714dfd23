-- ===== src/Tests/Executor/Runs.antt =====
-- The theorems on the executors' runs, over the services of Tests/Executor.
use kdmp.Base.{
  ℕ, zero, suc, Bool, true, false, Option, none, some, List, [], ◌∷◌, Text, codes, Error, errorf,
  Result, ok, err, Call, ◌≡◌, ◌≢◌, ◌↔◌, ◌⊎◌, inl, inr, refl, arith, is_empty,
}
use kdmp.Base.Int.{is_zero}
use kdmp.Base.Strings.{contains}
use kdmp.Drivers.{JobConditionType}
use kdmp.Executor.{Repository, Store, Status}
use kdmp.Executor.Outcomes.{returned}
use kdmp.Executor.Credentials
use kdmp.Executor.VolumeBackups
use kdmp.Executor.VolumeBackups.Created.{Accepted, create_volume_backup-Accepted}
use kdmp.Executor.Repositories
use kdmp.Executor.Repositories.Policy.{set_global_policy-running}
use kdmp.Executor.Repositories.Connects.{connect_cmd-create_cmd}
use kdmp.Executor.Backup
use kdmp.Executor.Backup.Saved.{Snapshot, Stored, finished, run_backup-Saved}
use kdmp.Executor.Backup.Ends.{run_kopia_backup-Ended}
use kdmp.Executor.Backup.Reported.{Agrees, reported, to_job_status-backup_status}
use kdmp.Executor.Restore
use kdmp.Executor.Restore.Restored.{Restored, run_restore-Restored}
use kdmp.Executor.Delete
use kdmp.Executor.Delete.Deleted.{Deleted, run_delete-Deleted}
use kdmp.Executor.Maintenance
use kdmp.Executor.Maintenance.Objects
use kdmp.Executor.Maintenance.Errors.{NotFailed, maintain_all-NotFailed}
use kdmp.Kopia
use kdmp.Kopia.Build
use kdmp.Kopia.Connects.{SameFlags}
use kdmp.Kopia.Executors.{State, started, backup_status}
use kdmp.Kopia.Output
use kdmp.Kopia.Output.Exists.{parse_std_err-contains}
use kdmp.Kopia.Runs
use kdmp.Kopia.Runs.Waiting.{Ended}
use kdmp.Tests.Executor.{World, services, floats, flags, empty_backup, look, file}
use kdmp.Tests.Services.{twice, twice_laws}

abbrev first : World
first = (1, empty_backup)

parse_std_err-contains_example :
    (Output.parse_std_err (codes "error: found existing data in storage location")
      ≡ Output.already_repo_exist_error)
    ↔ (contains
          (codes "error: found existing data in storage location")
          Output.already_repo_exist_text
        ≡ true)
parse_std_err-contains_example =
    parse_std_err-contains (codes "error: found existing data in storage location")

set_global_policy-running_example :
    Repositories.set_global_policy services floats twice flags first
    ≡ ((0, empty_backup), returned tt)
unfolding look
set_global_policy-running_example =
    set_global_policy-running services floats twice flags twice_laws first first (0, empty_backup)
      refl refl

abbrev repo : Repository
repo = record {
  name = codes "generic-backup/app-db/";
  path = codes "bucket";
  auth_env = [];
  store = Store.google (record { project_id = codes "project"; account_key = codes "key" });
  password = codes "secret";
}

abbrev create_command : Kopia.Command
create_command =
    Build.repository_command (codes "create") repo.path repo.name repo.password (codes "gcs") false

abbrev connect_command : Kopia.Command
connect_command =
    Build.repository_command (codes "connect") repo.path repo.name repo.password (codes "gcs") false

has_store : repo.store ≢ Store.unset
has_store h = cc

connect_cmd-create_cmd_example :
    SameFlags
      (Kopia.create_cmd [] (Repositories.populate_access_details create_command repo)).arguments
      (Kopia.connect_cmd [] (Repositories.populate_access_details connect_command repo)).arguments
unfolding Build.get_create_command Build.get_connect_command Repositories.kopia_provider_type
    Repositories.disable_ssl
connect_cmd-create_cmd_example =
    connect_cmd-create_cmd [] repo create_command connect_command refl refl has_store

abbrev backup_command : Kopia.Command
backup_command = record Kopia.no_command {
  name = codes "create";
  password = repo.password;
  path = repo.path;
  dir = codes "/data";
  provider = codes "google";
  args = codes "." ∷ [];
}

abbrev write : Status ℕ → Call World Unit
write = Repositories.write_backup_status services floats twice flags

always : (status : Status ℕ) (w : World) → (write status w).1 ≡ ok tt
unfolding Repositories.write_backup_status VolumeBackups.write_volume_backup_status
always status w = refl

run_kopia_backup-Ended_example :
    Ended services
      (Runs.new_backup_executor services floats backup_command)
      write
      (Backup.run_kopia_backup services floats twice flags 2 repo (codes "/data") first).1
unfolding look Build.get_backup_command Backup.type_text Repositories.write_backup_status
    VolumeBackups.write_volume_backup_status
run_kopia_backup-Ended_example =
    run_kopia_backup-Ended services floats twice flags 2 repo (codes "/data") backup_command first
      first always refl refl (inr (λ status. inl (_, refl)))

abbrev failed_state : State kdmp.Executor.BackupSummary
failed_state = record started { last_error = some (errorf (codes "failed")) }

to_job_status-backup_status_example :
    Agrees floats
      (λ p. kdmp.Base.◌==◌ p 100)
      empty_backup
      JobConditionType.unset
      failed_state.last_error
      failed_state.summary
      (reported floats (λ p. kdmp.Base.◌==◌ p 100) empty_backup JobConditionType.unset failed_state)
to_job_status-backup_status_example =
    to_job_status-backup_status floats (λ p. kdmp.Base.◌==◌ p 100) empty_backup
      JobConditionType.unset failed_state refl refl (λ f h. ground arith)

create_volume_backup-Accepted_example :
    (VolumeBackups.create_volume_backup services floats
        (codes "export-1")
        (codes "app")
        repo.name
        (codes "gcs")
        (codes "app")
        first
      ≡ (first, ok tt))
    ↔ Accepted services floats
        (VolumeBackups.new_volume_backup services floats
          (codes "export-1")
          (codes "app")
          repo.name
          (codes "gcs")
          (codes "app"))
        (first, ok empty_backup)
        first
create_volume_backup-Accepted_example =
    create_volume_backup-Accepted services floats (codes "export-1") (codes "app") repo.name
      (codes "gcs") (codes "app") first first

maintain_all-NotFailed_example :
    NotFailed
      (Maintenance.maintain_all services floats twice flags
        (codes "gcs")
        (codes "app")
        2
        (codes "full")
        repo
        (codes "app-db/" ∷ [])
        first).1
maintain_all-NotFailed_example =
    maintain_all-NotFailed services floats twice flags (codes "gcs") (codes "app") 2 (codes "full")
      repo (codes "app-db/" ∷ []) first

abbrev saved_backup : World
saved_backup = (
  0,
  record empty_backup {
    progress_percentage = 100;
    total_bytes = 4096;
    total_bytes_processed = 4096;
    snapshot_id = codes "k1";
  },
)

-- Each of the three runs ends, the backup with its status stored.
runs_return :
    (Backup.run_backup services floats twice flags 1 (codes "/data") first
      ≡ (saved_backup, returned tt))
    × (Restore.run_restore services floats twice flags 1 (codes "k1") (codes "/data") first
        ≡ ((0, empty_backup), returned tt))
    × (Delete.run_delete services floats twice flags
          (codes "delete-1")
          (codes "app")
          1
          (codes "k1")
          first
        ≡ ((0, empty_backup), returned tt))
unfolding Backup.run_kopia_backup Backup.run_backup kdmp.Base.Strings.split
    kdmp.Base.Strings.contains Repositories.frame_backup_path
    Repositories.run_kopia_repository_connect Repositories.is_repository_exists
    Build.get_connect_command Build.get_backup_command Build.get_restore_command
    Output.get_backup_summary Output.get_connect_summary Output.restored_size
    kdmp.Kopia.Executors.connect_settle kdmp.Kopia.Executors.restore_settle
    kdmp.Kopia.Executors.delete_settle kdmp.Kopia.Executors.summary_done
    kdmp.Kopia.Executors.backup_status kdmp.Kopia.Executors.running_status
    kdmp.Kopia.Executors.restore_status Runs.backup_settle look file kdmp.Base.text_eq
    kdmp.Controller.Secrets.google_contents kdmp.Tests.Services.next Restore.run_kopia_restore
    Restore.restore_command Delete.run_kopia_delete Delete.run_delete
runs_return = (refl, refl, refl)

run_backup-Saved_example :
    (s : kdmp.Executor.BackupSummary) × Snapshot services floats twice flags s
    × (is_empty s.id ≡ false)
    × (is_zero s.fatal_error_count ≡ true)
    × Stored services floats twice flags (finished services floats twice flags s) saved_backup
run_backup-Saved_example =
    run_backup-Saved services floats twice flags 1 (codes "/data") first saved_backup refl
      runs_return.0

run_restore-Restored_example :
    (r : Repository) × (w₁ : World) × (w₂ : World) × (Credentials.parse_cloud_cred services first
      ≡ (w₁, ok r))
    × (Repositories.run_kopia_repository_connect services floats twice flags
          (record r { name = flags.kopia_repo })
          w₁
        ≡ (w₂, returned tt))
    × Restored services floats twice flags
        (record r { name = flags.kopia_repo })
        (codes "/data")
        (codes "k1")
        w₂
        (0, empty_backup)
run_restore-Restored_example =
    run_restore-Restored services floats twice flags 1 (codes "k1") (codes "/data") first
      (0, empty_backup) runs_return.1

run_delete-Deleted_example :
    (r : Repository) × (w₁ : World) × (w₂ : World) × (Credentials.parse_cloud_cred services first
      ≡ (w₁, ok r))
    × (Repositories.run_kopia_repository_connect services floats twice flags
          (record r { name = Repositories.frame_backup_path flags.kopia_repo })
          w₁
        ≡ (w₂, returned tt))
    × Deleted services floats twice flags (codes "delete-1") (codes "app") (codes "k1") w₂
run_delete-Deleted_example =
    run_delete-Deleted services floats twice flags (codes "delete-1") (codes "app") 1 (codes "k1")
      first (0, empty_backup) runs_return.2
