-- ===== src/Executor/Maintenance.antt =====
-- The maintenance of the repositories of a backup location: pkg/executor/kopia/maintenance.go.
pub mod Objects
pub mod Maintained
pub mod Errors
use kdmp.Base.{
  ℕ, true, false, none, some, List, [], ◌∷◌, ◌++◌, Text, codes, Error, errorf, Result, ok, err,
  Call, format, text_eq, if◌then◌else◌,
}
use kdmp.Base.Results.{return}
use kdmp.Services.{Retry, Attempt, done, again, give_up}
use kdmp.Executor.{ExecutorServices, Floats, Flags, Repository, Status, MaintenanceResult}
use kdmp.Executor.Outcomes.{
  Run, returned, run_call, run_result, result, failure, rephrase, handle, with_error, ◌>>=◌, ◌>>◌,
}
use kdmp.Executor.Credentials.{parse_cloud_cred}
use kdmp.Executor.Repositories.{build_stork_backup_location, run_kopia_repository_connect}
use kdmp.Executor.Backup.{named}
use kdmp.Kopia.Build.{get_maintenance_run_command, get_maintenance_set_command}
use kdmp.Kopia.Runs.{
  new_maintenance_run_executor, new_maintenance_set_executor, run, await, retried,
}
use Objects.{
  full_maintenance_type, get_backup_path_with_repo_name, update_backup_location_maintenance,
  get_repo_list,
}

-- The task of runKopiaMaintenanceSet: an error ends it.
unfoldable pub set_verdict : {W F : Type 0} → Status F → W → W × Attempt Unit
set_verdict status w = elim status.last_known_error [
  | some e ↦ (w, give_up e)
  | none ↦ elim status.done [
    | true ↦ (w, done tt)
    | false ↦ (w, again (errorf (codes "maintenance set command status not available")))
  ]
]

-- The name and the namespace of the BackupLocationMaintenance.
module _ {W F : Type 0} (x : ExecutorServices W F) (floats : Floats F) (r : Retry) (flags : Flags)
    (name namespace : Text) where
  -- The loop over the status, which writes none.
  unfoldable pub run_kopia_maintenance_execute : ℕ → Repository → Run W Unit
  unfolding run await
  run_kopia_maintenance_execute looks repo = do
    let e = new_maintenance_run_executor x floats get_maintenance_run_command
    st ←
        rephrase (named "running maintenance run command for [%v] failed: %v" repo.name)
          (run_call (run x e))
    await x e some (λ status. return tt) looks st

  -- With the command and the executor of the full maintenance.
  unfoldable pub run_kopia_quick_maintenance_execute : ℕ → Repository → Run W Unit
  unfolding run await
  run_kopia_quick_maintenance_execute looks repo = do
    let e = new_maintenance_run_executor x floats get_maintenance_run_command
    st ←
        rephrase (named "running maintenance run command for [%v] failed: %v" repo.name)
          (run_call (run x e))
    await x e some (λ status. return tt) looks st

  unfoldable pub run_kopia_maintenance_set : Run W Unit
  unfolding run retried set_verdict
  run_kopia_maintenance_set = do
    c ←
        rephrase (with_error "getting maintenance set command for failed: %v")
          (λ w. run_result (get_maintenance_set_command (x.hostname w)) w)
    let e = new_maintenance_set_executor x floats c
    st ← rephrase (with_error "running maintenance set command for failed: %v") (run_call (run x e))
    retried x r e set_verdict st

  -- An update whose error is only logged.
  unfoldable pub noted : Text → MaintenanceResult → Text → Text → Run W Unit
  noted type status repo_name reason w = (
    (update_backup_location_maintenance x name namespace type status repo_name reason w).0,
    returned tt,
  )

  unfoldable pub execute : ℕ → Text → Repository → Run W Unit
  unfolding run_kopia_maintenance_execute run_kopia_quick_maintenance_execute
  execute looks type repo =
      if text_eq type full_maintenance_type
      then run_kopia_maintenance_execute looks repo
      else run_kopia_quick_maintenance_execute looks repo

  -- The steps for one repository.
  unfoldable pub maintain_steps : ℕ → Text → Repository → Run W Unit
  unfolding run_kopia_repository_connect run_kopia_maintenance_set execute noted
  maintain_steps looks type repo = do
    run_kopia_repository_connect x floats r flags repo
    run_kopia_maintenance_set
    execute looks type repo
    noted type MaintenanceResult.successful repo.name []

  -- The body of runMaintenance's loop: an error of a step is noted, and the loop goes on.
  unfoldable pub maintain : ℕ → Text → Repository → Run W Unit
  unfolding maintain_steps noted
  maintain looks type repo =
      handle (λ e. noted type MaintenanceResult.failed repo.name e.text)
        (maintain_steps looks type repo)

  unfoldable pub maintain_all : ℕ → Text → Repository → List Text → Run W Unit
  unfolding maintain get_backup_path_with_repo_name
  maintain_all looks type repo [] = result tt
  maintain_all looks type repo (key ∷ keys) =
      maintain looks type (record repo { name = get_backup_path_with_repo_name key })
      >> maintain_all looks type repo keys

  unfoldable pub maintain_location : ℕ → Text → Repository → Run W Unit
  unfolding maintain_all get_repo_list
  maintain_location looks type repo = do
    let location = build_stork_backup_location repo
    run_call (x.get_bucket location)
    repos ← run_call (get_repo_list x location (codes "generic-backup/"))
    maintain_all looks type repo repos

  unfoldable pub run_maintenance : ℕ → Text → Run W Unit
  unfolding maintain_location parse_cloud_cred
  run_maintenance looks type = do
    repo ←
        rephrase (with_error "failed in parsing backuplocation: %s") (run_call (parse_cloud_cred x))
    maintain_location looks type repo
