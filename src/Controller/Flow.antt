-- ===== src/Controller/Flow.antt =====
-- How the stage handlers of reconcile.go return. A handler runs calls against the world, each of
-- which may end it; it ends in `return requeue, c.updateStatus(dataExport, data)` or in a plain
-- `return requeue, err`.
use kdmp.Base.{ℕ, Bool, false, Option, [], Text, Error, Result, ok, err, Call}
use kdmp.Base.Int.{ℤ, pos}
use kdmp.Api.{DataExport, Stage, Status}

-- updateDataExportDetail: the fields to change; an empty one is left as it is.
pub record UpdateDataExportDetail : Type 0 where
  pub stage : Stage
  pub status : Status
  pub transfer_id : Text
  pub reason : Text
  pub snapshot_id : Text
  pub size : ℕ
  pub progress_percentage : ℤ
  pub snapshot_pvc_name : Text
  pub snapshot_pvc_namespace : Text
  pub snapshot_namespace : Text
  pub remove_finalizer : Bool
  pub volume_snapshot : Text

-- `updateDataExportDetail{}`.
abbrev pub no_change : UpdateDataExportDetail
no_change = record {
  stage = Stage.unset;
  status = Status.unset;
  transfer_id = [];
  reason = [];
  snapshot_id = [];
  size = 0;
  progress_percentage = pos 0;
  snapshot_pvc_name = [];
  snapshot_pvc_namespace = [];
  snapshot_namespace = [];
  remove_finalizer = false;
  volume_snapshot = [];
}

-- `updateDataExportDetail{stage: …, status: …, reason: …}`.
abbrev pub to_stage : Stage → Status → Text → UpdateDataExportDetail
to_stage s t r = record no_change { stage = s; status = t; reason = r }

-- `updateDataExportDetail{status: …, reason: …}`.
abbrev pub to_status : Status → Text → UpdateDataExportDetail
to_status t r = record no_change { status = t; reason = r }

-- `write b de data` is `return b, c.updateStatus(de, data)`; `quit b e` is `return b, e`; `crash` is
-- a nil pointer dereference.
pub data Verdict : Type 0 where
  write : Bool → DataExport → UpdateDataExportDetail → Verdict
  quit : Bool → Option Error → Verdict
  crash : Verdict

-- The status becomes Failed with a reason, and the object is not requeued at once.
abbrev pub fail_with : DataExport → Text → Verdict
fail_with de msg = write false de (to_status Status.failed msg)

pub data Exit (A : Type 0) : Type 0 where
  stop : Verdict → Exit A
  go : A → Exit A

abbrev pub Act : Type 0 → Type 0 → Type 0
Act W A = W → W × Exit A

-- `x, err := call(); if err != nil { return … }`
abbrev pub exit_of : {A : Type 0} → (Error → Verdict) → Result A → Exit A
exit_of f (ok a) = go a
exit_of f (err e) = stop (f e)

module _ {W A : Type 0} where
  abbrev pub attempt : Call W A → (Error → Verdict) → Act W A
  attempt call f w = let (w', r) = call w in (w', exit_of f r)

  -- A result that is computed without a call.
  abbrev pub check : Result A → (Error → Verdict) → Act W A
  check r f w = (w, exit_of f r)

  abbrev pub finish : Verdict → Act W A
  finish v w = (w, stop v)

  abbrev pub pure : A → Act W A
  pure a w = (w, go a)

module _ {W A B : Type 0} where
  abbrev pub continue : Exit A → (A → Act W B) → Act W B
  continue (stop v) f w = (w, stop v)
  continue (go a) f w = f a w

  infixl 5 ◌>>=◌ ◌>>◌
  abbrev pub ◌>>=◌ : Act W A → (A → Act W B) → Act W B
  ◌>>=◌ m f w = let (w', x) = m w in continue x f w'

  abbrev pub ◌>>◌ : Act W A → Act W B → Act W B
  m >> n = m >>= λ _. n

abbrev pub verdict_of : Exit Verdict → Verdict
verdict_of (stop v) = v
verdict_of (go v) = v
