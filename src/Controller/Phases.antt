-- ===== src/Controller/Phases.antt =====
-- The state machine of a data export, apart from the code: which stage and status may follow which.
mod Snapshots
mod LocalRestores
mod Transfers
mod Following
mod Before
pub mod Steps
pub mod Reach
pub mod Success
use kdmp.Base.{Bool, false, ◌≡◌, ◌⊎◌}
use kdmp.Api.{DataExport, Stage, Status}
use kdmp.Controller.Flow.{Verdict, write, quit, crash}
use kdmp.Controller.Update.{override_stage, override_status}
use kdmp.Controller.Sync.{first_stage}

-- A stage whose work ends at once, and one that may also go on.
abbrev pub Settled : Status → Type 0
Settled t = (t ≡ Status.failed) ⊎ (t ≡ Status.successful)

abbrev pub Worked : Status → Type 0
Worked t = (t ≡ Status.failed) ⊎ (t ≡ Status.in_progress) ⊎ (t ≡ Status.successful)

abbrev pub Moves : Stage → Stage → Status → Type 0
Moves next s' t' = (s' ≡ next) × (t' ≡ Status.initial)

abbrev pub Next : DataExport → Stage → Status → Stage → Status → Type 0
Next de Stage.unset t s' t' = Moves Stage.initial s' t'
Next de Stage.initial Status.successful s' t' = Moves (first_stage de) s' t'
Next de Stage.initial _ s' t' = (s' ≡ Stage.initial) × Settled t'
Next de Stage.snapshot_scheduled Status.successful s' t' = Moves Stage.snapshot_in_progress s' t'
Next de Stage.snapshot_scheduled _ s' t' = (s' ≡ Stage.snapshot_scheduled) × Settled t'
Next de Stage.snapshot_in_progress Status.successful s' t' = Moves Stage.snapshot_restore s' t'
Next de Stage.snapshot_in_progress _ s' t' = (s' ≡ Stage.snapshot_in_progress) × Worked t'
Next de Stage.snapshot_restore Status.successful s' t' =
    Moves Stage.snapshot_restore_in_progress s' t'
Next de Stage.snapshot_restore _ s' t' = (s' ≡ Stage.snapshot_restore) × Settled t'
Next de Stage.snapshot_restore_in_progress Status.successful s' t' =
    Moves Stage.transfer_scheduled s' t'
Next de Stage.snapshot_restore_in_progress _ s' t' =
    (s' ≡ Stage.snapshot_restore_in_progress) × Worked t'
Next de Stage.local_snapshot_restore Status.successful s' t' =
    Moves Stage.local_snapshot_restore_in_progress s' t'
Next de Stage.local_snapshot_restore Status.failed s' t' = Moves Stage.transfer_scheduled s' t'
Next de Stage.local_snapshot_restore _ s' t' = (s' ≡ Stage.local_snapshot_restore) × Settled t'
Next de Stage.local_snapshot_restore_in_progress Status.successful s' t' =
    (s' ≡ Stage.cleanup) × (t' ≡ Status.successful)
Next de Stage.local_snapshot_restore_in_progress Status.failed s' t' =
    Moves Stage.transfer_scheduled s' t'
Next de Stage.local_snapshot_restore_in_progress _ s' t' =
    (s' ≡ Stage.local_snapshot_restore_in_progress) × Worked t'
Next de Stage.transfer_scheduled Status.successful s' t' = Moves Stage.transfer_in_progress s' t'
Next de Stage.transfer_scheduled Status.failed s' t' = (s' ≡ Stage.cleanup) × (t' ≡ Status.failed)
Next de Stage.transfer_scheduled _ s' t' = (s' ≡ Stage.transfer_scheduled) × Settled t'
Next de Stage.transfer_in_progress Status.successful s' t' =
    (s' ≡ Stage.cleanup) × (t' ≡ Status.successful)
Next de Stage.transfer_in_progress Status.failed s' t' = (s' ≡ Stage.cleanup) × (t' ≡ Status.failed)
Next de Stage.transfer_in_progress _ s' t' = (s' ≡ Stage.transfer_in_progress) × Worked t'
Next de Stage.cleanup t s' t' = (s' ≡ Stage.final) × ((t' ≡ t) ⊎ (t' ≡ Status.failed))
Next de _ t s' t' = ⊥

-- One step: what the stage does next, a failure to find the driver, or nothing.
abbrev pub Step : DataExport → Stage → Status → Stage → Status → Type 0
Step de s t s' t' = Next de s t s' t' ⊎ ((s' ≡ s) × (t' ≡ Status.failed)) ⊎ ((s' ≡ s) × (t' ≡ t))

-- A verdict that writes takes what the stage does next, at the same object, and keeps the
-- finalizers.
abbrev pub Allowed : DataExport → Stage → Status → Verdict → Type 0
Allowed de s t (write b de' d) =
    (de'.name ≡ de.name)
    × (de'.namespace ≡ de.namespace)
    × (d.remove_finalizer ≡ false)
    × Next de s t (override_stage d.stage s) (override_status d.status t)
Allowed de s t (quit b e) = Unit
Allowed de s t crash = Unit
