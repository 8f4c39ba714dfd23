-- ===== src/Controller/Reconcile.antt =====
-- Controller.Reconcile (pkg/controllers/dataexport/dataexport.go).
pub mod Finalizer
use kdmp.Base.{
  ℕ, Bool, true, false, not, none, some, Option, ok, err, [], ◌∷◌, ◌++◌, Text, Error, Result,
  if◌then◌else◌, is_not_found,
}
use kdmp.Api.{DataExport}
use kdmp.Services.{Cluster, Client, Retry}
use kdmp.Drivers.{Registry}
use kdmp.Controller.Update.{cleanup_finalizer}
use kdmp.Controller.Sync.{State, Outcome, returns, crashed, contains_finalizer, sync}

-- reconcile.Result and the error; `requeue_after` in seconds. A panic of sync is passed on.
pub data Answer : Type 0 where
  answers : (requeue : Bool) (requeue_after : ℕ) → Option Error → Answer
  panics : Answer

abbrev pub resync_period : ℕ
resync_period = 10

-- stork's controllers.SetFinalizer, where the finalizer is missing.
abbrev pub set_finalizer : Text → DataExport → DataExport
set_finalizer f de = record de { finalizers = de.finalizers ++ (f ∷ []) }

error_of : Result (Unit {0}) → Option Error
error_of (ok _) = none
error_of (err e) = some e

unfoldable pub answer_of : Outcome → Answer
answer_of (returns b (some e)) = answers false 2 (some e)
answer_of (returns true none) = answers true 0 none
answer_of (returns false none) = answers false resync_period none
answer_of crashed = panics

module _ (k : Cluster) (c : Client) (r : Retry) where
  synced : Registry k.World k.Float64 → DataExport → State k c r → State k c r × Answer
  synced drivers de s = ((sync k c r drivers de s).0, answer_of (sync k c r drivers de s).1)

  with_finalizer : Registry k.World k.Float64 → DataExport → State k c r → State k c r × Answer
  unfolding synced error_of
  with_finalizer drivers de (o, w) =
      if not (contains_finalizer cleanup_finalizer de.finalizers)
      then (
        ((c.update (set_finalizer cleanup_finalizer de) o).0, w),
        answers true 0 (error_of (c.update (set_finalizer cleanup_finalizer de) o).1),
      )
      else synced drivers de (o, w)

  unfoldable pub reconcile :
      Registry k.World k.Float64 → Text → Text → State k c r → State k c r × Answer
  unfolding with_finalizer
  reconcile drivers name namespace (o, w) = elim (c.read name namespace o).1 [
    | ok de ↦ with_finalizer drivers de ((c.read name namespace o).0, w)
    | err e ↦ (
      ((c.read name namespace o).0, w),
      if is_not_found e then answers false 0 none else answers false 2 (some e),
    )
  ]
