-- ===== src/Controller/Sync.antt =====
-- Controller.sync of reconcile.go: one step of the data export's state machine, by its stage. The
-- state is what lies behind the client for DataExport objects, and the world of all other services.
use kdmp.Base.{
  Bool, true, false, not, ◌&&◌, none, some, Option, ok, err, List, [], ◌∷◌, Text, codes, Error,
  errorf, Call, format, Result, text_eq, if◌then◌else◌,
}
use kdmp.Api.{DataExport, DataExportType, Stage, Status}
use kdmp.Services.{Cluster, Client, Retry, Attempt, done, again}
use kdmp.Drivers.{Driver, Registry}
use kdmp.Drivers
use kdmp.Drivers.Name
use kdmp.Controller.Flow.{
  no_change, to_stage, to_status, Verdict, write, quit, crash, fail_with, Act, verdict_of,
}
use kdmp.Controller.Update.{cleanup_finalizer, update_status}
use kdmp.Controller.Names.{has_snapshot_stage, has_local_restore_stage}
use kdmp.Controller.Refs.{get_driver_type, type_text}
use kdmp.Controller.Checks.{check_claims, check_generic_backup, check_generic_restore}
use kdmp.Controller.Snapshot.{
  stage_snapshot_scheduled, stage_snapshot_in_progress, stage_snapshot_restore,
  stage_snapshot_restore_in_progress,
}
use kdmp.Controller.LocalRestore.{
  stage_local_snapshot_restore, stage_local_snapshot_restore_in_progress,
}
use kdmp.Controller.Transfer.{transfer_scheduled, transfer_in_progress}
use kdmp.Controller.Cleanup.{clean_up}

-- stork's controllers.ContainsFinalizer.
unfoldable pub contains_finalizer : Text → List Text → Bool
contains_finalizer f [] = false
contains_finalizer f (x ∷ xs) =
    let rest = contains_finalizer f xs in if text_eq x f then true else rest

-- What sync returns, or that it dereferences nil.
pub data Outcome : Type 0 where
  returns : Bool → Option Error → Outcome
  crashed : Outcome

-- The stage that follows Initial.
unfoldable pub first_stage : DataExport → Stage
first_stage de =
    if has_local_restore_stage de
    then Stage.local_snapshot_restore
    else if has_snapshot_stage de
    then Stage.snapshot_scheduled
    else Stage.transfer_scheduled

module _ (k : Cluster) (c : Client) (r : Retry) where
  abbrev pub State : Type 0
  State = c.Objects × k.World

  -- The check of stageInitial, by the driver's name.
  unfoldable pub check_driver : Text → DataExport → Call k.World (Unit {0})
  check_driver name de =
      if text_eq name Name.rsync
      then check_claims k r de
      else if text_eq name Name.restic_backup
      then check_generic_backup k r de
      else if text_eq name Name.restic_restore
      then check_generic_restore k r de
      else if text_eq name Name.kopia_backup
      then check_generic_backup k r de
      else if text_eq name Name.kopia_restore
      then check_generic_restore k r de
      else λ w. (w, ok tt)

  checked : DataExport → Result (Unit {0}) → Verdict
  checked de (ok _) = write true de (to_status Status.successful [])
  checked de (err e) = fail_with de (format "check failed: %s" (e.text ∷ []))

  unfoldable pub stage_initial : Status → DataExport → k.World → k.World × Verdict
  unfolding checked
  stage_initial Status.successful de w = (
    w,
    write true (record de { status = record de.status { stage = first_stage de } })
        (to_stage (first_stage de) Status.initial []),
  )
  stage_initial _ de w = elim (get_driver_type de) [
    | err e ↦ (w, fail_with de (format "check failed: %s" (e.text ∷ [])))
    | ok name ↦ ((check_driver name de w).0, checked de (check_driver name de w).1)
  ]

  clean_up_task : Driver k.World k.Float64 → DataExport → k.World → k.World × Attempt Unit
  clean_up_task driver de w = elim (clean_up k r driver de w).1 [
    | ok _ ↦ ((clean_up k r driver de w).0, done tt)
    | err e ↦ (
      (clean_up k r driver de w).0,
      again (errorf (format "failed to remove resources: %s" (e.text ∷ []))),
    )
  ]

  cleaned : DataExport → Result (Unit {0}) → Verdict
  cleaned de (ok _) = write true de (to_stage Stage.final Status.unset [])
  cleaned de (err _) = write true de (to_stage Stage.final Status.failed [])

  -- Stage Cleanup.
  unfoldable pub stage_cleanup : Driver k.World k.Float64 → DataExport → k.World → k.World × Verdict
  unfolding clean_up_task cleaned
  stage_cleanup driver de w =
      let (w', x) = r.do_retry k.World Unit (clean_up_task driver de) w in (w', cleaned de x)

  -- A handler that leaves the objects alone.
  abbrev on_world : (k.World → k.World × Verdict) → State → State × Verdict
  on_world f (o, w) = let (w', v) = f w in ((o, w'), v)

  abbrev on_act : Act k.World Verdict → State → State × Verdict
  on_act f (o, w) = let (w', x) = f w in ((o, w'), verdict_of x)

  -- The switch over the stages.
  unfoldable pub dispatch :
      Stage → Status → Text → Driver k.World k.Float64 → DataExport → State → State × Verdict
  dispatch Stage.initial t name driver de s = on_world (stage_initial t de) s
  dispatch Stage.snapshot_scheduled t name driver de s = on_act (stage_snapshot_scheduled k t de) s
  dispatch Stage.snapshot_in_progress t name driver de s =
      on_act (stage_snapshot_in_progress k t de) s
  dispatch Stage.snapshot_restore t name driver de s = on_act (stage_snapshot_restore k t de) s
  dispatch Stage.snapshot_restore_in_progress t name driver de s =
      on_act (stage_snapshot_restore_in_progress k t de) s
  dispatch Stage.local_snapshot_restore t name driver de s =
      on_act (stage_local_snapshot_restore k r t de) s
  dispatch Stage.local_snapshot_restore_in_progress t name driver de s =
      on_act (stage_local_snapshot_restore_in_progress k r t de) s
  dispatch Stage.transfer_scheduled t name driver de s =
      on_act (transfer_scheduled k r t name driver de) s
  dispatch Stage.transfer_in_progress t name driver de s =
      transfer_in_progress k c r t name driver de s
  dispatch Stage.cleanup t name driver de s = on_world (stage_cleanup driver de) s
  dispatch _ t name driver de s = (s, quit false none)

  abbrev after_clean_up : DataExport → Result (Unit {0}) → Verdict
  after_clean_up de (ok _) = write true de (record no_change { remove_finalizer = true })
  after_clean_up de (err e) =
      quit true
        (some (errorf (format "%s: cleanup: %s" (codes "*v1alpha1.DataExport" ∷ e.text ∷ []))))

  -- The part of sync with a driver at hand: an object that is being deleted is cleaned up.
  unfoldable pub with_driver :
      Text → Driver k.World k.Float64 → DataExport → State → State × Verdict
  with_driver name driver de (o, w) =
      if de.deleting
      then if not (contains_finalizer cleanup_finalizer de.finalizers)
        then ((o, w), quit false none)
        else ((o, (clean_up k r driver de w).0), after_clean_up de (clean_up k r driver de w).1)
      else dispatch de.status.stage de.status.status name driver de (o, w)

  unfoldable pub find_driver :
      Registry k.World k.Float64 → Text → DataExport → State → State × Verdict
  find_driver drivers name de s = elim (Drivers.get name drivers) [
    | ok driver ↦ with_driver name driver de s
    | err e ↦ (
      s,
      fail_with de (
          format "failed to get a driver for a %s type: %s" (type_text de.spec.type ∷ e.text ∷ [])),
    )
  ]

  abbrev deleted : DataExport → Result (Unit {0}) → Verdict
  deleted de (ok _) = write true de (record no_change { remove_finalizer = true })
  deleted de (err e) =
      quit true (some (errorf (format "failed to delete dataexport object: %s" (e.text ∷ []))))

  -- An object that is being deleted in the first stage.
  unfoldable pub delete_initial : DataExport → State → State × Verdict
  delete_initial de (o, w) =
      if not (contains_finalizer cleanup_finalizer de.finalizers)
      then ((o, w), quit false none)
      else (((c.delete de o).0, w), deleted de (c.delete de o).1)

  unfoldable pub by_driver_type : Registry k.World k.Float64 → DataExport → State → State × Verdict
  unfolding find_driver
  by_driver_type drivers de s = elim (get_driver_type de) [
    | ok name ↦ find_driver drivers name de s
    | err e ↦ (
      s,
      fail_with de
          (format "failed to get a driver type for %s: %s" (type_text de.spec.type ∷ e.text ∷ [])),
    )
  ]

  abbrev or_rsync : DataExportType → DataExportType
  or_rsync DataExportType.unset = DataExportType.rsync
  or_rsync t = t

  abbrev is_initial : Stage → Bool
  is_initial Stage.initial = true
  is_initial _ = false

  -- sync up to its last `return`, by the stage of the object in hand.
  unfoldable pub decide : Registry k.World k.Float64 → Stage → DataExport → State → State × Verdict
  unfolding by_driver_type
  decide drivers Stage.unset de s = (
    s,
    write true (record de { spec = record de.spec { type = or_rsync de.spec.type } })
        (to_stage Stage.initial Status.initial []),
  )
  decide drivers stage de s =
      if de.deleting && is_initial stage then delete_initial de s else by_driver_type drivers de s

  -- `return b, c.updateStatus(de, data)` and `return b, err`.
  unfoldable pub conclude : State × Verdict → State × Outcome
  conclude ((o, w), write b de d) =
      let ((o', _), e) = update_status c r de d o in ((o', w), returns b e)
  conclude (s, quit b e) = (s, returns b e)
  conclude (s, crash) = (s, crashed)

  unfoldable pub sync : Registry k.World k.Float64 → DataExport → State → State × Outcome
  sync drivers de s = conclude (decide drivers de.status.stage de s)
