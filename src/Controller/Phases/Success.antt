-- ===== src/Controller/Phases/Success.antt =====
-- Where a data export that has ended successfully comes from.
use kdmp.Base.{
  false, some, Text, ◌≡◌, ◌⊎◌, inl, inr, refl, ap, ◌∙◌, sym, subst, arith, ◌≤◌, leb, Bool-cases,
}
use kdmp.Api.{DataExport, Stage, Status}
use kdmp.Services.{Cluster, Client, ClientLaws, Retry, RetryLaws}
use kdmp.Drivers.{Registry}
use kdmp.Controller.Sync.{State, first_stage}
use kdmp.Controller.Phases.{Next, Step}
use kdmp.Controller.Phases.Steps.{sync-IsStepped}
use kdmp.Controller.Phases.Reach.{
  rank, IsLost, IsLost-failed, same_stage, Reaches, here, synced, elsewhere, Reaches-Later,
}

-- The job that copies the data, or the restore from a local snapshot, has succeeded.
abbrev pub IsWon : Stage → Status → Type 0
IsWon Stage.transfer_in_progress t = t ≡ Status.successful
IsWon Stage.local_snapshot_restore_in_progress t = t ≡ Status.successful
IsWon _ t = ⊥

below : {P : Type 0} (s u : Stage) → s ≡ u → 10 ≤ rank s → rank u ≤ 9 → P
below s u e h l =
    let g : 10 ≤ rank u = subst (λ z. 10 ≤ rank z) e h in let b : ⊥ = omega arith in absurd b

first_stage-below : (de : DataExport) → rank (first_stage de) ≤ 9
unfolding first_stage
first_stage-below de = ground arith

-- A step to the clean-up is taken by a transfer that has succeeded or by one that has failed.
Next-cleanup :
    (de : DataExport) (s : Stage) (t : Status) (s' : Stage) (t' : Status)
    → rank s ≤ 9
    → 10 ≤ rank s'
    → Next de s t s' t'
    → IsWon s t ⊎ IsLost s' t'
Next-cleanup de Stage.unset t s' t' l g h = below s' _ h.0 g (omega arith)
Next-cleanup de Stage.initial Status.successful s' t' l g h =
    below s' _ h.0 g (first_stage-below de)
Next-cleanup de Stage.initial _ s' t' l g h = below s' _ h.0 g (omega arith)
Next-cleanup de Stage.snapshot_scheduled Status.successful s' t' l g h =
    below s' _ h.0 g (omega arith)
Next-cleanup de Stage.snapshot_scheduled _ s' t' l g h = below s' _ h.0 g (omega arith)
Next-cleanup de Stage.snapshot_in_progress Status.successful s' t' l g h =
    below s' _ h.0 g (omega arith)
Next-cleanup de Stage.snapshot_in_progress _ s' t' l g h = below s' _ h.0 g (omega arith)
Next-cleanup de Stage.snapshot_restore Status.successful s' t' l g h =
    below s' _ h.0 g (omega arith)
Next-cleanup de Stage.snapshot_restore _ s' t' l g h = below s' _ h.0 g (omega arith)
Next-cleanup de Stage.snapshot_restore_in_progress Status.successful s' t' l g h =
    below s' _ h.0 g (omega arith)
Next-cleanup de Stage.snapshot_restore_in_progress _ s' t' l g h = below s' _ h.0 g (omega arith)
Next-cleanup de Stage.local_snapshot_restore Status.successful s' t' l g h =
    below s' _ h.0 g (omega arith)
Next-cleanup de Stage.local_snapshot_restore Status.failed s' t' l g h =
    below s' _ h.0 g (omega arith)
Next-cleanup de Stage.local_snapshot_restore _ s' t' l g h = below s' _ h.0 g (omega arith)
Next-cleanup de Stage.local_snapshot_restore_in_progress Status.successful s' t' l g h = inl refl
Next-cleanup de Stage.local_snapshot_restore_in_progress Status.failed s' t' l g h =
    below s' _ h.0 g (omega arith)
Next-cleanup de Stage.local_snapshot_restore_in_progress _ s' t' l g h =
    below s' _ h.0 g (omega arith)
Next-cleanup de Stage.transfer_scheduled Status.successful s' t' l g h =
    below s' _ h.0 g (omega arith)
Next-cleanup de Stage.transfer_scheduled Status.failed s' t' l g h =
    inr (same_stage _ _ _ _ h.0 h.1 refl)
Next-cleanup de Stage.transfer_scheduled _ s' t' l g h = below s' _ h.0 g (omega arith)
Next-cleanup de Stage.transfer_in_progress Status.successful s' t' l g h = inl refl
Next-cleanup de Stage.transfer_in_progress Status.failed s' t' l g h =
    inr (same_stage _ _ _ _ h.0 h.1 refl)
Next-cleanup de Stage.transfer_in_progress _ s' t' l g h = below s' _ h.0 g (omega arith)
Next-cleanup de Stage.cleanup t s' t' l g h =
    below s' s' refl g (let b : ⊥ = omega arith in absurd b)
Next-cleanup de Stage.final t s' t' l g h = absurd h
Next-cleanup de (Stage.other _) t s' t' l g h = absurd h

Step-cleanup :
    (de : DataExport) (s : Stage) (t : Status) (s' : Stage) (t' : Status)
    → rank s ≤ 9
    → 10 ≤ rank s'
    → Step de s t s' t'
    → IsWon s t ⊎ IsLost s' t'
Step-cleanup de s t s' t' l g (inl h) = Next-cleanup de s t s' t' l g h
Step-cleanup de s t s' t' l g (inr (inl h)) = below s' s h.0 g l
Step-cleanup de s t s' t' l g (inr (inr h)) = below s' s h.0 g l

status_clash : {P : Type 0} (s : Stage) (t : Status) → IsLost s t → t ≡ Status.successful → P
status_clash s t l e =
    let f = IsLost-failed s t l in
    let b : Status.failed ≡ Status.successful = sym f ∙ e in absurd (clash b)
  where
    clash : Status.failed ≡ Status.successful → ⊥
    clash b = cc

rank-cases : (s : Stage) → (rank s ≤ 9) ⊎ (10 ≤ rank s)
rank-cases s = elim (Bool-cases (leb (rank s) 9)) [
  | inl e ↦ inl (ground arith)
  | inr e ↦ inr (ground arith)
]

-- At some point of a run the object's transfer or local restore has succeeded.
abbrev pub WasWon :
    (k : Cluster) (c : Client) (r : Retry) (n ns : Text)
    → ClientLaws c n ns
    → Registry k.World k.Float64
    → State k c r
    → State k c r
    → Type 0
WasWon k c r n ns laws drivers s s' =
    (u : DataExport) × (m : State k c r) × Reaches k c r n ns laws drivers s m
    × Reaches k c r n ns laws drivers m s'
    × (laws.stored m.0 ≡ some u)
    × IsWon u.status.stage u.status.status

-- A data export that a run of syncs brings from before the clean-up to the status Successful in the
-- stage Cleanup, Final or an unknown one has, at some point of that run, been stored with the status
-- Successful in the stage TransferInProgress or LocalSnapshotRestoreInProgress.
pub Reaches-WasWon :
    (k : Cluster) (c : Client) (r : Retry) (n ns : Text) (laws : ClientLaws c n ns)
    (waits : RetryLaws r) (drivers : Registry k.World k.Float64) (s s' : State k c r)
    (x y : DataExport)
    → Reaches k c r n ns laws drivers s s'
    → laws.stored s.0 ≡ some x
    → x.deleting ≡ false
    → rank x.status.stage ≤ 9
    → laws.stored s'.0 ≡ some y
    → 10 ≤ rank y.status.stage
    → y.status.status ≡ Status.successful
    → WasWon k c r n ns laws drivers s s'
Reaches-WasWon k c r n ns laws waits drivers s s' x y (here _) h alive l h' g won =
    let e : y ≡ x = ground arith in
    below y.status.stage x.status.stage (ap (λ z. z.status.stage) e) g l
Reaches-WasWon k c r n ns laws waits drivers s s' x y (elsewhere o w w' _ t) h alive l h' g won =
    let (u, m, p, q, j, a) =
      Reaches-WasWon k c r n ns laws waits drivers (o, w') s' x y t h alive l h' g won in
    (u, m, elsewhere o w w' m p, q, j, a)
Reaches-WasWon k c r n ns laws waits drivers s s' x y (synced o w x' _ i t) h alive l h' g won =
    let e : x ≡ x' = ground arith in
    let alive' : x'.deleting ≡ false = ap (λ z. z.deleting) (sym e) ∙ alive in
    let l' : rank x'.status.stage ≤ 9 = subst (λ z. rank z.status.stage ≤ 9) e l in
    let (v, hv, st, sp, fin, d) = sync-IsStepped k c r n ns laws waits drivers x' o w alive' i in
    elim (rank-cases v.status.stage) [
      | inl b ↦
          let (u, m, p, q, j, a) =
            Reaches-WasWon k c r n ns laws waits drivers _ s' v y t hv d b h' g won in
          (u, m, synced o w x' m i p, q, j, a)
      | inr b ↦ elim (Step-cleanup x' _ _ _ _ l' b st) [
        | inl a ↦ (x', (o, w), here (o, w), synced o w x' s' i t, i, a)
        | inr lost ↦
            let (z, hz, later) = Reaches-Later k c r n ns laws waits drivers _ s' v t hv d in
            let same : z ≡ y = ground arith in
            status_clash z.status.stage z.status.status (later.1 lost)
              (ap (λ q. q.status.status) same ∙ won)
      ]
    ]
