-- ===== src/Controller/Phases/LocalRestores.antt =====
-- The stages that restore from a local snapshot, against the state machine.
use kdmp.Base.{arith}
use kdmp.Api.{DataExport, Stage, Status}
use kdmp.Services.{Cluster, Retry}
use kdmp.Controller.Flow.{verdict_of}
use kdmp.Controller.Update.{override_stage, override_status}
use kdmp.Controller.Snapshot.{not_ready}
use kdmp.Controller.LocalRestore.{
  stage_local_snapshot_restore, stage_local_snapshot_restore_in_progress,
}
use kdmp.Controller.Phases.{Allowed}

module _ (k : Cluster) (r : Retry) (de : DataExport) (w : k.World) where
  pub stage_local_snapshot_restore-Allowed :
      (t : Status)
      → Allowed de Stage.local_snapshot_restore t
          (verdict_of (stage_local_snapshot_restore k r t de w).1)
  unfolding stage_local_snapshot_restore override_stage override_status
  stage_local_snapshot_restore-Allowed Status.successful = ground arith
  stage_local_snapshot_restore-Allowed Status.failed = ground arith
  stage_local_snapshot_restore-Allowed _ = ground arith

  pub stage_local_snapshot_restore_in_progress-Allowed :
      (t : Status)
      → Allowed de Stage.local_snapshot_restore_in_progress t
          (verdict_of (stage_local_snapshot_restore_in_progress k r t de w).1)
  unfolding stage_local_snapshot_restore_in_progress override_stage override_status not_ready
  stage_local_snapshot_restore_in_progress-Allowed Status.successful = ground arith
  stage_local_snapshot_restore_in_progress-Allowed Status.failed = ground arith
  stage_local_snapshot_restore_in_progress-Allowed _ = ground arith
