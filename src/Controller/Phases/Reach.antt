-- ===== src/Controller/Phases/Reach.antt =====
-- Runs of many syncs, between which everything but the data export itself may change.
use kdmp.Base.{ℕ, false, some, Text, ◌≡◌, inl, inr, refl, ap, ◌∙◌, sym, subst, arith, ◌≤◌}
use kdmp.Api.{DataExport, Stage, Status}
use kdmp.Services.{Cluster, Client, ClientLaws, Retry, RetryLaws}
use kdmp.Drivers.{Registry}
use kdmp.Controller.Sync.{State, sync, first_stage}
use kdmp.Controller.Phases.{Next, Step}
use kdmp.Controller.Phases.Steps.{IsStepped, sync-IsStepped}

-- How far a stage is on the way.
abbrev pub rank : Stage → ℕ
rank Stage.unset = 0
rank Stage.initial = 1
rank Stage.snapshot_scheduled = 2
rank Stage.snapshot_in_progress = 3
rank Stage.snapshot_restore = 4
rank Stage.snapshot_restore_in_progress = 5
rank Stage.local_snapshot_restore = 6
rank Stage.local_snapshot_restore_in_progress = 7
rank Stage.transfer_scheduled = 8
rank Stage.transfer_in_progress = 9
rank Stage.cleanup = 10
rank Stage.final = 11
rank (Stage.other _) = 12

rank-first_stage : (de : DataExport) → 1 ≤ rank (first_stage de)
unfolding first_stage
rank-first_stage de = ground arith

rank_from : (m : ℕ) (s u : Stage) → s ≡ u → m ≤ rank u → m ≤ rank s
rank_from m s u e h = subst (λ z. m ≤ rank z) (sym e) h

Next-rank :
    (de : DataExport) (s : Stage) (t : Status) (s' : Stage) (t' : Status)
    → Next de s t s' t'
    → rank s ≤ rank s'
Next-rank de Stage.unset t s' t' h = rank_from _ _ _ h.0 (omega arith)
Next-rank de Stage.initial Status.successful s' t' h = rank_from _ _ _ h.0 (rank-first_stage de)
Next-rank de Stage.initial _ s' t' h = rank_from _ _ _ h.0 (omega arith)
Next-rank de Stage.snapshot_scheduled Status.successful s' t' h = rank_from _ _ _ h.0 (omega arith)
Next-rank de Stage.snapshot_scheduled _ s' t' h = rank_from _ _ _ h.0 (omega arith)
Next-rank de Stage.snapshot_in_progress Status.successful s' t' h =
    rank_from _ _ _ h.0 (omega arith)
Next-rank de Stage.snapshot_in_progress _ s' t' h = rank_from _ _ _ h.0 (omega arith)
Next-rank de Stage.snapshot_restore Status.successful s' t' h = rank_from _ _ _ h.0 (omega arith)
Next-rank de Stage.snapshot_restore _ s' t' h = rank_from _ _ _ h.0 (omega arith)
Next-rank de Stage.snapshot_restore_in_progress Status.successful s' t' h =
    rank_from _ _ _ h.0 (omega arith)
Next-rank de Stage.snapshot_restore_in_progress _ s' t' h = rank_from _ _ _ h.0 (omega arith)
Next-rank de Stage.local_snapshot_restore Status.successful s' t' h =
    rank_from _ _ _ h.0 (omega arith)
Next-rank de Stage.local_snapshot_restore Status.failed s' t' h = rank_from _ _ _ h.0 (omega arith)
Next-rank de Stage.local_snapshot_restore _ s' t' h = rank_from _ _ _ h.0 (omega arith)
Next-rank de Stage.local_snapshot_restore_in_progress Status.successful s' t' h =
    rank_from _ _ _ h.0 (omega arith)
Next-rank de Stage.local_snapshot_restore_in_progress Status.failed s' t' h =
    rank_from _ _ _ h.0 (omega arith)
Next-rank de Stage.local_snapshot_restore_in_progress _ s' t' h = rank_from _ _ _ h.0 (omega arith)
Next-rank de Stage.transfer_scheduled Status.successful s' t' h = rank_from _ _ _ h.0 (omega arith)
Next-rank de Stage.transfer_scheduled Status.failed s' t' h = rank_from _ _ _ h.0 (omega arith)
Next-rank de Stage.transfer_scheduled _ s' t' h = rank_from _ _ _ h.0 (omega arith)
Next-rank de Stage.transfer_in_progress Status.successful s' t' h =
    rank_from _ _ _ h.0 (omega arith)
Next-rank de Stage.transfer_in_progress Status.failed s' t' h = rank_from _ _ _ h.0 (omega arith)
Next-rank de Stage.transfer_in_progress _ s' t' h = rank_from _ _ _ h.0 (omega arith)
Next-rank de Stage.cleanup t s' t' h = rank_from _ _ _ h.0 (omega arith)
Next-rank de Stage.final t s' t' h = absurd h
Next-rank de (Stage.other _) t s' t' h = absurd h

Step-rank :
    (de : DataExport) (s : Stage) (t : Status) (s' : Stage) (t' : Status)
    → Step de s t s' t'
    → rank s ≤ rank s'
Step-rank de s t s' t' (inl h) = Next-rank de s t s' t' h
Step-rank de s t s' t' (inr (inl h)) = rank_from _ _ _ h.0 (omega arith)
Step-rank de s t s' t' (inr (inr h)) = rank_from _ _ _ h.0 (omega arith)

-- The transfer has failed: its status is Failed in the stage that starts it or a later one.
abbrev pub IsLost : Stage → Status → Type 0
IsLost Stage.transfer_scheduled t = t ≡ Status.failed
IsLost Stage.transfer_in_progress t = t ≡ Status.failed
IsLost Stage.cleanup t = t ≡ Status.failed
IsLost Stage.final t = t ≡ Status.failed
IsLost _ t = ⊥

pub same_stage : (s u : Stage) (t v : Status) → s ≡ u → t ≡ v → IsLost u v → IsLost s t
same_stage s u t v e f h = subst (λ z. IsLost z t) (sym e) (subst (IsLost u) (sym f) h)

Next-IsLost :
    (de : DataExport) (s : Stage) (t : Status) (s' : Stage) (t' : Status)
    → t ≡ Status.failed
    → IsLost s t
    → Next de s t s' t'
    → IsLost s' t'
Next-IsLost de Stage.transfer_scheduled Status.failed s' t' e l h = same_stage _ _ _ _ h.0 h.1 refl
Next-IsLost de Stage.transfer_scheduled _ s' t' e l h = cc
Next-IsLost de Stage.transfer_in_progress Status.failed s' t' e l h =
    same_stage _ _ _ _ h.0 h.1 refl
Next-IsLost de Stage.transfer_in_progress _ s' t' e l h = cc
Next-IsLost de Stage.cleanup t s' t' e l (p, inl q) = same_stage _ _ _ _ p (q ∙ e) refl
Next-IsLost de Stage.cleanup t s' t' e l (p, inr q) = same_stage _ _ _ _ p q refl
Next-IsLost de Stage.final t s' t' e l h = absurd h
Next-IsLost de _ t s' t' e l h = absurd l

pub IsLost-failed : (s : Stage) (t : Status) → IsLost s t → t ≡ Status.failed
IsLost-failed Stage.transfer_scheduled t h = h
IsLost-failed Stage.transfer_in_progress t h = h
IsLost-failed Stage.cleanup t h = h
IsLost-failed Stage.final t h = h
IsLost-failed _ t h = absurd h

Step-IsLost :
    (de : DataExport) (s : Stage) (t : Status) (s' : Stage) (t' : Status)
    → IsLost s t
    → Step de s t s' t'
    → IsLost s' t'
Step-IsLost de s t s' t' l (inl h) = Next-IsLost de s t s' t' (IsLost-failed s t l) l h
Step-IsLost de s t s' t' l (inr (inl h)) =
    same_stage _ _ _ _ h.0 (h.1 ∙ sym (IsLost-failed s t l)) l
Step-IsLost de s t s' t' l (inr (inr h)) = same_stage _ _ _ _ h.0 h.1 l

Step-final :
    (de : DataExport) (t : Status) (s' : Stage) (t' : Status)
    → Step de Stage.final t s' t'
    → s' ≡ Stage.final
Step-final de t s' t' (inl h) = absurd h
Step-final de t s' t' (inr (inl h)) = h.0
Step-final de t s' t' (inr (inr h)) = h.0

-- How an object may differ after some syncs: its stage is not an earlier one, a failed transfer is
-- not taken up again, the last stage is not left, and the spec and the finalizers are the same.
abbrev pub Later : DataExport → DataExport → Type 0
Later x y =
    (rank x.status.stage ≤ rank y.status.stage)
    × (IsLost x.status.stage x.status.status → IsLost y.status.stage y.status.status)
    × (x.status.stage ≡ Stage.final → y.status.stage ≡ Stage.final)
    × (y.spec ≡ x.spec)
    × (y.finalizers ≡ x.finalizers)
    × (y.deleting ≡ false)

Later-Later : (x y z : DataExport) → Later x y → Later y z → Later x z
Later-Later x y z (r, l, f, s, p, d) (r', l', f', s', p', d') =
    (omega arith, (λ h. l' (l h)), (λ h. f' (f h)), s' ∙ s, p' ∙ p, d')

IsStepped-Later :
    (c : Client) (n ns : Text) (laws : ClientLaws c n ns) (x : DataExport) (o : c.Objects)
    → IsStepped c n ns laws x o
    → (y : DataExport) × (laws.stored o ≡ some y) × (y.deleting ≡ false) × Later x y
IsStepped-Later c n ns laws x o (y, h, st, s, p, d) = (
  y,
  h,
  d,
  (
    Step-rank x _ _ _ _ st,
    (λ l. Step-IsLost x _ _ _ _ l st),
    (λ e.
        Step-final x _ _ _
          (subst (λ z. Step x z x.status.status y.status.stage y.status.status) e st)),
    s,
    p,
    d,
  ),
)

module _ (k : Cluster) (c : Client) (r : Retry) (n ns : Text) (laws : ClientLaws c n ns)
    (drivers : Registry k.World k.Float64) where
  -- Runs of syncs of the object that is stored; between two of them the world may change.
  pub data Reaches : State k c r → State k c r → Type 0 where
    here : (s : State k c r) → Reaches s s
    synced :
        (o : c.Objects) (w : k.World) (x : DataExport) (s : State k c r)
        → laws.stored o ≡ some x
        → Reaches (sync k c r drivers x (o, w)).0 s
        → Reaches (o, w) s
    elsewhere :
        (o : c.Objects) (w w' : k.World) (s : State k c r) → Reaches (o, w') s → Reaches (o, w) s

-- However many syncs run, whatever calls fail in them and whatever happens to the world between
-- them, a data export that is not being deleted is still stored at the end: its stage is no
-- earlier one, a transfer that had failed has not been taken up again, the stage Final has not been
-- left, and its spec and finalizers are as they were.
pub Reaches-Later :
    (k : Cluster) (c : Client) (r : Retry) (n ns : Text) (laws : ClientLaws c n ns)
    (waits : RetryLaws r) (drivers : Registry k.World k.Float64) (s s' : State k c r)
    (x : DataExport)
    → Reaches k c r n ns laws drivers s s'
    → laws.stored s.0 ≡ some x
    → x.deleting ≡ false
    → (y : DataExport) × (laws.stored s'.0 ≡ some y) × Later x y
Reaches-Later k c r n ns laws waits drivers s s' x (here _) h alive =
    (x, h, (omega arith, (λ l. l), (λ e. e), refl, refl, alive))
Reaches-Later k c r n ns laws waits drivers s s' x (elsewhere o w w' _ t) h alive =
    Reaches-Later k c r n ns laws waits drivers (o, w') s' x t h alive
Reaches-Later k c r n ns laws waits drivers s s' x (synced o w x' _ g t) h alive =
    let e : x' ≡ x = ground arith in
    let (y, hy, d, l) =
      IsStepped-Later c n ns laws x' _
        (sync-IsStepped k c r n ns laws waits drivers x' o w (ap (λ z. z.deleting) e ∙ alive) g) in
    let (z, hz, l') = Reaches-Later k c r n ns laws waits drivers _ s' y t hy d in
    (z, hz, subst (λ v. Later v z) e (Later-Later x' y z l l'))
