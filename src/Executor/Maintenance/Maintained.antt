-- ===== src/Executor/Maintenance/Maintained.antt =====
-- What the maintenance of one repository has done when none of its steps fails.
use kdmp.Base.{none, [], ◌∷◌, Text, codes, ok, ◌≡◌}
use kdmp.Services.{Retry}
use kdmp.Executor.{ExecutorServices, Floats, Flags}
use kdmp.Kopia.{ExecCmd}
use kdmp.Kopia.Runs.Clean.{Clean}

-- The command line of a full maintenance.
abbrev pub full_run : ExecCmd
full_run = record {
  program = codes "kopia";
  arguments =
      codes "maintenance"
      ∷ codes "run"
      ∷ codes "--log-dir"
      ∷ codes "/tmp"
      ∷ codes "--config-file"
      ∷ codes "/tmp/kopiconfig"
      ∷ codes "--full"
      ∷ [];
  environment = none;
  directory = [];
}

module _ {W F : Type 0} (x : ExecutorServices W F) (floats : Floats F) (r : Retry) (flags : Flags)
    (name namespace : Text) where
  -- The full maintenance was started and a process seen to end without a failure.
  abbrev pub FullRun : W → Type 0
  FullRun w = (w₁ : W) × (x.start full_run w ≡ (w₁, ok tt)) × Clean x
