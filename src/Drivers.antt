-- ===== src/Drivers.antt =====
-- The data-transfer drivers as the controller sees them: pkg/drivers/drivers.go, its job options
-- (options.go) and the table of drivers, pkg/drivers/driversinstance. A driver is a record of
-- Interface's methods.
pub mod Options
pub mod Name
pub mod Table
pub mod KopiaJob
pub mod KopiaBackup
pub mod KopiaRestore
pub mod KopiaDelete
pub mod KopiaMaintenance
pub mod ResticJob
pub mod ResticBackup
pub mod ResticRestore
pub mod Rsync
use kdmp.Base.{
  List, [], ◌∷◌, Option, none, some, Text, codes, Error, errorf, Result, ok, err, Call, text_eq,
  is_empty, format, if◌then◌else◌,
}
use kdmp.Drivers.Options.{JobOpts, JobOption, no_opts}

-- JobState.
pub data JobState : Type 0 where
  in_progress completed failed : JobState

-- batchv1.JobConditionType; `unset` is "".
pub data JobConditionType : Type 0 where
  unset complete failed : JobConditionType
  other : Text → JobConditionType

pub record JobStatus (F : Type 0) : Type 0 where
  pub progress_percents : F
  pub state : JobState
  pub reason : Text
  pub status : JobConditionType

-- Interface: a driver works on the world W, and a percentage is an F.
pub record Driver (W F : Type 0) : Type 0 where
  pub name : Text
  pub start_job : List JobOption → Call W Text
  pub delete_job : Text → Call W Unit
  pub job_status : Text → Call W (JobStatus F)

-- The loop over the options with which every driver's StartJob begins.
unfoldable pub apply_options : List JobOption → JobOpts → Result JobOpts
apply_options [] o = ok o
apply_options (opt ∷ opts) o = elim (opt o) [ ok o' ↦ apply_options opts o' | err e ↦ err e ]

-- The seven implementations, one package each under pkg/drivers.
pub record Implementations (W F : Type 0) : Type 0 where
  pub rsync : Driver W F
  pub restic_backup : Driver W F
  pub restic_restore : Driver W F
  pub kopia_backup : Driver W F
  pub kopia_restore : Driver W F
  pub kopia_delete : Driver W F
  pub kopia_maintenance : Driver W F

-- driversMap of driversinstance.go.
abbrev pub Registry : Type 0 → Type 0 → Type 0
Registry W F = List (Text × Driver W F)

module _ {W F : Type 0} where
  unfoldable pub drivers_map : Implementations W F → Registry W F
  drivers_map d =
      (Name.rsync, d.rsync)
      ∷ (Name.restic_backup, d.restic_backup)
      ∷ (Name.restic_restore, d.restic_restore)
      ∷ (Name.kopia_backup, d.kopia_backup)
      ∷ (Name.kopia_restore, d.kopia_restore)
      ∷ (Name.kopia_delete, d.kopia_delete)
      ∷ (Name.kopia_maintenance, d.kopia_maintenance)
      ∷ []

  insert : Text → Driver W F → Registry W F → Registry W F
  insert name d [] = (name, d) ∷ []
  insert name d ((n, e) ∷ m) = if text_eq n name then (n, d) ∷ m else (n, e) ∷ insert name d m

  -- Add; `none` is the nil driver.
  unfoldable pub add : Option (Driver W F) → Registry W F → Registry W F × Option Error
  unfolding insert
  add none m = (m, some (errorf (format "driver is nil" [])))
  add (some d) m = (insert d.name d m, none)

  -- Get.
  unfoldable pub get : Text → Registry W F → Result (Driver W F)
  get name [] = err (errorf (format "\"%q\" driver: not found" (name ∷ [])))
  get name ((n, d) ∷ m) = if text_eq n name then ok d else get name m
