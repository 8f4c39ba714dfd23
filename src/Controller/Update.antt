-- ===== src/Controller/Update.antt =====
-- Controller.updateStatus (pkg/controllers/dataexport/reconcile.go): read the object anew, change
-- the fields that the detail names, write it back, and do it all again while a call fails.
pub mod Stored
use kdmp.Base.{
  Bool, true, false, not, Option, none, some, [], ◌∷◌, List, Text, Error, errorf, Result, ok, err,
  is_not_found, is_empty, text_eq, format, if◌then◌else◌, codes, ◌==◌,
}
use kdmp.Base.Int.{ℤ, is_zero}
use kdmp.Api.{DataExport, ExportStatus, Stage, Status}
use kdmp.Services.{Client, Attempt, done, again, Retry}
use kdmp.Controller.Flow.{UpdateDataExportDetail}

abbrev pub cleanup_finalizer : Text
cleanup_finalizer = codes "kdmp.portworx.com/finalizer-cleanup"

-- `if data.x != "" { de.Status.X = data.x }`
unfoldable pub override : Text → Text → Text
override [] old = old
override (c ∷ s) old = c ∷ s

unfoldable pub override_stage : Stage → Stage → Stage
override_stage Stage.unset old = old
override_stage new old = new

unfoldable pub override_status : Status → Status → Status
override_status Status.unset old = old
override_status new old = new

-- stork's controllers.RemoveFinalizer: keep the finalizers that differ.
unfoldable pub remove_finalizer : Text → List Text → List Text
remove_finalizer f [] = []
remove_finalizer f (x ∷ xs) =
    let rest = remove_finalizer f xs in if text_eq x f then rest else x ∷ rest

unfoldable pub apply_detail : UpdateDataExportDetail → DataExport → DataExport
apply_detail d de = record de {
  finalizers =
      if d.remove_finalizer
      then remove_finalizer cleanup_finalizer de.finalizers
      else de.finalizers;
  status = record s {
    stage = override_stage d.stage s.stage;
    status = override_status d.status s.status;
    transfer_id = override d.transfer_id s.transfer_id;
    reason = override d.reason s.reason;
    snapshot_id = override d.snapshot_id s.snapshot_id;
    size = if d.size == 0 then s.size else d.size;
    progress_percentage =
        if is_zero d.progress_percentage then s.progress_percentage else d.progress_percentage;
    snapshot_pvc_name = override d.snapshot_pvc_name s.snapshot_pvc_name;
    snapshot_pvc_namespace = override d.snapshot_pvc_namespace s.snapshot_pvc_namespace;
    snapshot_namespace = override d.snapshot_namespace s.snapshot_namespace;
    volume_snapshot = override d.volume_snapshot s.volume_snapshot;
  };
}
  where
    open de use {status as s}

module _ (c : Client) (r : Retry) where
  -- The end of one run of the task, with the changed object.
  put_task : DataExport → c.Objects → (c.Objects × DataExport) × Attempt Unit
  put_task de o = elim (c.update de o).1 [
    | ok _ ↦ (((c.update de o).0, de), done tt)
    | err e ↦ (
      ((c.update de o).0, de),
      again (errorf (format "failed updating DE CR %s: %v" (de.name ∷ e.text ∷ []))),
    )
  ]

  -- One run of the task: the objects behind the client, and the object in hand, `de`.
  update_task :
      UpdateDataExportDetail → c.Objects × DataExport → (c.Objects × DataExport) × Attempt Unit
  unfolding put_task
  update_task d (o, de) = elim (c.get de.name de.namespace o).1 [
    | ok found ↦ put_task (apply_detail d found) (c.get de.name de.namespace o).0
    | err e ↦
        if not (is_not_found e)
        then (
          ((c.get de.name de.namespace o).0, de),
          again (
              errorf (
                format "failed in getting DE CR %v/%v: %v" (de.namespace ∷ de.name ∷ e.text ∷ []))),
        )
        else put_task (apply_detail d de) (c.get de.name de.namespace o).0
  ]

  abbrev pub update_error : Text → Result (Unit {0}) → Option Error
  update_error name (ok _) = none
  update_error name (err _) =
      some (
        errorf
          (format "max retries done, failed updating DE CR %s: %v" (name ∷ codes "<nil>" ∷ [])))

  -- The objects, the object in hand, and the error. `actualErr` of the last message is the outer
  -- variable, which the task's own `actualErr` shadows, so it is always nil.
  unfoldable pub update_status :
      DataExport → UpdateDataExportDetail → c.Objects → (c.Objects × DataExport) × Option Error
  unfolding update_task
  update_status de d o =
      let (s, x) = r.do_retry (c.Objects × DataExport) Unit (update_task d) (o, de) in
      (s, update_error s.1.name x)
