-- ===== src/Tests/Runs.antt =====
-- Runs of syncs, job ids, the table of drivers and the clean-up, at concrete inputs.
use kdmp.Base.{ℕ, false, Option, some, [], ◌∷◌, codes, ok, ◌≡◌, ◌↔◌, refl, arith, text_eq}
use kdmp.Api.{Pvc, DataExport, Stage, Status}
use kdmp.Drivers.{Registry, get, add}
use kdmp.Drivers.Name
use kdmp.Drivers.Table.{get-add}
use kdmp.Jobs.{namespaced_name, parse_job_id}
use kdmp.Jobs.Laws.{Free, parse_job_id-namespaced_name}
use kdmp.Tests.Services.{
  once, twice_backoff, memory, memory_laws, twice, twice_laws, outage, held, next, found,
}
use kdmp.Tests.Examples.{claim, app, export_at, location_ref, idle}
use kdmp.Controller.Update.{apply_detail, update_status, override, override_stage, override_status}
use kdmp.Controller.Cleanup.Cleaned.{Cleaned}
use kdmp.Controller.Refs.{
  check_name_namespace, get_driver_type, direction, is_pvc_ref, is_api_version_kind_not_set_ref,
  is_backup_location_ref,
}
use kdmp.Controller.Transfer.{transfer_in_progress}
use kdmp.Controller.Sync.{
  sync, decide, by_driver_type, find_driver, with_driver, dispatch, conclude,
}
use kdmp.Services.{Cluster}
use kdmp.Controller.Checks.{check_pvc, wait_for_pvc_bound}
use kdmp.Controller.Checks.Unmounted.{WasBound, check_pvc-get_pods_using_pvc}
use kdmp.Controller.Reconcile.{reconcile}
use kdmp.Controller.Reconcile.Finalizer.{IsReconciled, reconcile-IsReconciled}
use kdmp.Controller.Phases.Reach.{Later, Reaches, here, synced, Reaches-Later}
use kdmp.Controller.Phases.Success.{WasWon, Reaches-WasWon}

abbrev copied : DataExport
copied = export_at Stage.transfer_in_progress Status.successful location_ref

abbrev table : Registry Unit ℕ
table = (Name.kopia_backup, idle) ∷ []

abbrev after : Option DataExport × Unit {0}
after = (sync outage memory twice table copied (some copied, tt)).0

one_sync :
    Reaches outage memory twice
      (codes "nightly")
      app
      (memory_laws (codes "nightly") app)
      table
      (some copied, tt)
      after
unfolding held text_eq
one_sync = synced (some copied) tt copied after refl (here after)

after_sync :
    held (codes "nightly") app after.0
    ≡ some (export_at Stage.cleanup Status.successful location_ref)
unfolding held text_eq sync decide by_driver_type get_driver_type direction is_pvc_ref
    is_api_version_kind_not_set_ref is_backup_location_ref find_driver get with_driver dispatch
    transfer_in_progress conclude update_status apply_detail override override_stage override_status
    next found
after_sync = refl

Reaches-Later_example :
    (y : DataExport) × (held (codes "nightly") app after.0 ≡ some y) × Later copied y
unfolding held text_eq
Reaches-Later_example =
    Reaches-Later outage memory twice (codes "nightly") app (memory_laws (codes "nightly") app)
      twice_laws table (some copied, tt) after copied one_sync refl refl

Reaches-WasWon_example :
    WasWon outage memory twice
      (codes "nightly")
      app
      (memory_laws (codes "nightly") app)
      table
      (some copied, tt)
      after
unfolding held text_eq
Reaches-WasWon_example =
    Reaches-WasWon outage memory twice (codes "nightly") app (memory_laws (codes "nightly") app)
      twice_laws table (some copied, tt) after copied
      (export_at Stage.cleanup Status.successful location_ref) one_sync refl refl (omega arith)
      after_sync (omega arith) refl

parse_job_id-namespaced_name_example :
    (parse_job_id (codes "app/job") ≡ ok (app, codes "job"))
    ↔ ((codes "app/job" ≡ namespaced_name app (codes "job")) × Free b'/' app)
parse_job_id-namespaced_name_example =
    parse_job_id-namespaced_name (codes "app/job") app (codes "job")

get-add_example :
    (get Name.kopia_backup (add (some idle) []).0 ≡ ok idle)
    × (text_eq Name.kopia_backup Name.rsync ≡ false
        → get Name.rsync (add (some idle) []).0 ≡ get Name.rsync [])
get-add_example = get-add idle [] Name.rsync

-- A backup with the default snapshot class, whose temporary claim is known.
abbrev snapshotted : DataExport
snapshotted = record (export_at Stage.cleanup Status.successful location_ref) {
  spec = record (export_at Stage.cleanup Status.successful location_ref).spec {
    snapshot_storage_class = codes "default";
  };
  status = record (export_at Stage.cleanup Status.successful location_ref).status {
    snapshot_pvc_name = codes "db-data-6f1c";
    snapshot_pvc_namespace = app;
  };
}

reconcile-IsReconciled_example :
    IsReconciled outage memory twice
      (codes "nightly")
      app
      (memory_laws (codes "nightly") app)
      copied
      tt
      (reconcile outage memory twice table (codes "nightly") app (some copied, tt)).0
unfolding held text_eq
reconcile-IsReconciled_example =
    reconcile-IsReconciled outage memory twice (codes "nightly") app
      (memory_laws (codes "nightly") app) twice_laws table copied (some copied) tt refl refl

abbrev bound_pvc : Pvc
bound_pvc = record {
  name = codes "db-data";
  namespace = app;
  phase = codes "Bound";
  storage_class = [];
  storage_request = 0;
  request_text = [];
  volume_name = [];
  annotations = [];
}

-- The claim is bound, and no pod uses it.
abbrev quiet : Cluster
quiet = record outage {
  get_pvc = λ name ns w. (w, ok bound_pvc);
  get_pods_using_pvc = λ name ns w. (w, ok []);
}

check_pvc-get_pods_using_pvc_example :
    (v : Unit {0}) × WasBound quiet claim v bound_pvc
    × (quiet.get_pods_using_pvc (codes "db-data") app v ≡ (tt, ok []))
unfolding check_pvc check_name_namespace wait_for_pvc_bound text_eq once
check_pvc-get_pods_using_pvc_example =
    check_pvc-get_pods_using_pvc quiet twice twice_backoff claim tt tt bound_pvc refl
