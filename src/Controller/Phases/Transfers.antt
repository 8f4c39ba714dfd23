-- ===== src/Controller/Phases/Transfers.antt =====
-- Initial, TransferScheduled and Cleanup against the state machine.
use kdmp.Base.{Text, arith, false, ◌≡◌}
use kdmp.Api.{DataExport, Stage, Status}
use kdmp.Services.{Cluster, Client, Retry}
use kdmp.Drivers.{Driver}
use kdmp.Controller.Flow.{verdict_of, Verdict, write, quit, crash}
use kdmp.Controller.Update.{override_stage, override_status}
use kdmp.Controller.Transfer.{transfer_scheduled, start_verdict}
use kdmp.Controller.Sync.{stage_initial, stage_cleanup, first_stage}
use kdmp.Controller.Phases.{Allowed, Settled}

module _ (k : Cluster) (r : Retry) (de : DataExport) (w : k.World) where
  -- What the start of a transfer may write: a status that ends the stage's work.
  abbrev Settles : Verdict → Type 0
  Settles (write b de' d) =
      (de'.name ≡ de.name)
      × (de'.namespace ≡ de.namespace)
      × (d.remove_finalizer ≡ false)
      × (d.stage ≡ Stage.unset)
      × Settled d.status
  Settles (quit b e) = Unit
  Settles crash = Unit

  transfer_scheduled-Settles :
      (name : Text) (driver : Driver k.World k.Float64)
      → Settles (verdict_of (transfer_scheduled k r Status.initial name driver de w).1)
  unfolding transfer_scheduled start_verdict
  transfer_scheduled-Settles name driver = ground arith

  -- Allowed in the statuses in which the transfer is started.
  abbrev Started : Status → Verdict → Type 0
  Started Status.successful v = Unit
  Started Status.failed v = Unit
  Started t v = Allowed de Stage.transfer_scheduled t v

  Settles-Started : (t : Status) (v : Verdict) → Settles v → Started t v
  unfolding override_stage override_status
  Settles-Started Status.successful v h = tt
  Settles-Started Status.failed v h = tt
  Settles-Started t (write b de' d) h = ground arith
  Settles-Started t (quit b e) h = tt
  Settles-Started t crash h = tt

  pub transfer_scheduled-Allowed :
      (name : Text) (driver : Driver k.World k.Float64) (t : Status)
      → Allowed de Stage.transfer_scheduled t
          (verdict_of (transfer_scheduled k r t name driver de w).1)
  unfolding transfer_scheduled override_stage override_status
  transfer_scheduled-Allowed name driver Status.successful = ground arith
  transfer_scheduled-Allowed name driver Status.failed = ground arith
  transfer_scheduled-Allowed name driver t =
      Settles-Started t _ (transfer_scheduled-Settles name driver)

  pub stage_initial-Allowed :
      (c : Client) (t : Status) → Allowed de Stage.initial t (stage_initial k c r t de w).1
  unfolding stage_initial first_stage override_stage override_status
  stage_initial-Allowed c Status.successful = ground arith
  stage_initial-Allowed c _ = ground arith

  pub stage_cleanup-Allowed :
      (c : Client) (driver : Driver k.World k.Float64) (t : Status)
      → Allowed de Stage.cleanup t (stage_cleanup k c r driver de w).1
  unfolding stage_cleanup override_stage override_status
  stage_cleanup-Allowed c driver t = ground arith
