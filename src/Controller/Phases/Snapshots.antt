-- ===== src/Controller/Phases/Snapshots.antt =====
-- The snapshot stages, against the state machine.
use kdmp.Base.{arith}
use kdmp.Api.{DataExport, Stage, Status}
use kdmp.Services.{Cluster}
use kdmp.Controller.Flow.{verdict_of}
use kdmp.Controller.Update.{override_stage, override_status}
use kdmp.Controller.Snapshot.{
  stage_snapshot_scheduled, stage_snapshot_in_progress, stage_snapshot_restore,
  stage_snapshot_restore_in_progress, not_ready,
}
use kdmp.Controller.Phases.{Allowed}

module _ (k : Cluster) (de : DataExport) (w : k.World) where
  pub stage_snapshot_scheduled-Allowed :
      (t : Status)
      → Allowed de Stage.snapshot_scheduled t (verdict_of (stage_snapshot_scheduled k t de w).1)
  unfolding stage_snapshot_scheduled override_stage override_status
  stage_snapshot_scheduled-Allowed Status.successful = ground arith
  stage_snapshot_scheduled-Allowed _ = ground arith

  pub stage_snapshot_in_progress-Allowed :
      (t : Status)
      → Allowed de Stage.snapshot_in_progress t (verdict_of (stage_snapshot_in_progress k t de w).1)
  unfolding stage_snapshot_in_progress override_stage override_status not_ready
  stage_snapshot_in_progress-Allowed Status.successful = ground arith
  stage_snapshot_in_progress-Allowed _ = ground arith

  pub stage_snapshot_restore-Allowed :
      (t : Status)
      → Allowed de Stage.snapshot_restore t (verdict_of (stage_snapshot_restore k t de w).1)
  unfolding stage_snapshot_restore override_stage override_status
  stage_snapshot_restore-Allowed Status.successful = ground arith
  stage_snapshot_restore-Allowed _ = ground arith

  pub stage_snapshot_restore_in_progress-Allowed :
      (t : Status)
      → Allowed de Stage.snapshot_restore_in_progress t
          (verdict_of (stage_snapshot_restore_in_progress k t de w).1)
  unfolding stage_snapshot_restore_in_progress override_stage override_status not_ready
  stage_snapshot_restore_in_progress-Allowed Status.successful = ground arith
  stage_snapshot_restore_in_progress-Allowed _ = ground arith
