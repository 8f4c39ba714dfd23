-- ===== src/Controller/Phases/Steps.antt =====
-- The object stored after a sync, against the state machine.
use kdmp.Base.{Bool, false, some, Text, ◌≡◌, ◌⊎◌, inl, inr, refl, ap, ◌∙◌, sym, subst}
use kdmp.Api.{DataExport, Stage, Status}
use kdmp.Services.{Cluster, Client, ClientLaws, Retry, RetryLaws}
use kdmp.Drivers.{Registry}
use kdmp.Controller.Flow.{UpdateDataExportDetail, Verdict, write, quit, crash}
use kdmp.Controller.Update.{override_stage, override_status, apply_detail, update_status}
use kdmp.Controller.Update.Stored.{update_status-IsPut}
use kdmp.Controller.Sync.{State, decide, conclude, sync}
use kdmp.Controller.Phases.{Step}
use kdmp.Controller.Phases.Before.{
  Sound, IsBefore, if-false, going-Step, then-Step, decide-IsBefore,
}
use kdmp.Controller.Phases.Following.{going_on, IsOpen}

-- The object stored in the end: one step on from x, with its spec and finalizers as they were.
abbrev pub IsStepped :
    (c : Client) (n ns : Text) → ClientLaws c n ns → DataExport → c.Objects → Type 0
IsStepped c n ns laws x o =
    (y : DataExport) × (laws.stored o ≡ some y)
    × Step x x.status.stage x.status.status y.status.stage y.status.status
    × (y.spec ≡ x.spec)
    × (y.finalizers ≡ x.finalizers)
    × (y.deleting ≡ false)

module _ (k : Cluster) (c : Client) (r : Retry) (n ns : Text) (laws : ClientLaws c n ns)
    (waits : RetryLaws r) (x : DataExport) (alive : x.deleting ≡ false) (hn : x.name ≡ n)
    (hs : x.namespace ≡ ns) where
  -- The object before the last write.
  abbrev IsEarlier : DataExport → Type 0
  IsEarlier y =
      (y ≡ x)
      ⊎ ((x.status.stage ≡ Stage.transfer_in_progress)
          × IsOpen x.status.status
          × (y ≡ apply_detail going_on x))

  live : (y : DataExport) → IsEarlier y → y.deleting ≡ false
  unfolding apply_detail
  live y (inl e) = ap (λ z. z.deleting) e ∙ alive
  live y (inr (es, p, e)) = ap (λ z. z.deleting) e ∙ alive

  kept-IsStepped :
      (y : DataExport) (o : c.Objects)
      → laws.stored o ≡ some y
      → IsEarlier y
      → IsStepped c n ns laws x o
  unfolding apply_detail override_stage override_status
  kept-IsStepped y o h (inl e) = (x, h ∙ ap some e, inr (inr (refl, refl)), refl, refl, alive)
  kept-IsStepped y o h (inr (es, p, e)) = (
    apply_detail going_on x,
    h ∙ ap some e,
    subst (λ s. Step x s x.status.status s Status.in_progress) (sym es)
        (going-Step x x.status.status p),
    refl,
    refl,
    alive,
  )

  put-IsStepped' :
      (b : Bool) (de y : DataExport) (d : UpdateDataExportDetail) (o : c.Objects)
      → laws.stored o ≡ some (apply_detail d y)
      → Sound x x.status.stage x.status.status (write b de d)
      → IsEarlier y
      → IsStepped c n ns laws x o
  unfolding apply_detail override_stage override_status
  put-IsStepped' b de y d o h (vn, vs, vf, st) (inl e) = (
    apply_detail d x,
    h ∙ ap (λ z. some (apply_detail d z)) e,
    st,
    refl,
    if-false d.remove_finalizer _ _ vf,
    alive,
  )
  put-IsStepped' b de y d o h (vn, vs, vf, st) (inr (es, p, e)) = (
    apply_detail d (apply_detail going_on x),
    h ∙ ap (λ z. some (apply_detail d z)) e,
    subst
        (λ s.
          Step x s x.status.status (override_stage d.stage s)
            (override_status d.status x.status.status)
          → Step x s x.status.status (override_stage d.stage s)
              (override_status d.status Status.in_progress))
        (sym es)
        (then-Step x x.status.status (override_stage d.stage Stage.transfer_in_progress) d.status p)
        st,
    refl,
    if-false d.remove_finalizer _ _ vf,
    alive,
  )

  -- An update of an object y that is x or x with its job still followed.
  put-IsStepped :
      (b : Bool) (de y : DataExport) (d : UpdateDataExportDetail) (o : c.Objects)
      → laws.stored o ≡ some y
      → Sound x x.status.stage x.status.status (write b de d)
      → IsEarlier y
      → IsStepped c n ns laws x (update_status c r de d o).0.0
  put-IsStepped b de y d o h v e =
      let p = update_status-IsPut c r n ns laws waits d y de o h (live y e) (v.0 ∙ hn) (v.1 ∙ hs) in
      elim p.0 [
        | inl kept ↦ kept-IsStepped y _ kept e
        | inr put ↦ put-IsStepped' b de y d _ put v e
      ]

  conclude-IsStepped :
      (z : State k c r × Verdict)
      → IsBefore k c r n ns laws waits x alive hn hs x.status.stage x.status.status z
      → IsStepped c n ns laws x (conclude k c r z).0.0
  unfolding conclude
  conclude-IsStepped ((o, w), write b de d) (inl h, v) = put-IsStepped b de x d o h v (inl refl)
  conclude-IsStepped ((o, w), write b de d) (inr (es, p, h), v) =
      put-IsStepped b de (apply_detail going_on x) d o h v (inr (es, p, refl))
  conclude-IsStepped ((o, w), quit b e) (inl h, v) = kept-IsStepped x o h (inl refl)
  conclude-IsStepped ((o, w), quit b e) (inr (es, p, h), v) =
      kept-IsStepped (apply_detail going_on x) o h (inr (es, p, refl))
  conclude-IsStepped ((o, w), crash) (inl h, v) = kept-IsStepped x o h (inl refl)
  conclude-IsStepped ((o, w), crash) (inr (es, p, h), v) =
      kept-IsStepped (apply_detail going_on x) o h (inr (es, p, refl))

-- Whatever the services answer and whichever calls fail, one sync of an object that is not being
-- deleted leaves an object stored whose stage and status are one step of the state machine on,
-- with the same spec and finalizers.
pub sync-IsStepped :
    (k : Cluster) (c : Client) (r : Retry) (n ns : Text) (laws : ClientLaws c n ns)
    (waits : RetryLaws r) (drivers : Registry k.World k.Float64) (x : DataExport) (o : c.Objects)
    (w : k.World)
    → x.deleting ≡ false
    → laws.stored o ≡ some x
    → IsStepped c n ns laws x (sync k c r drivers x (o, w)).0.0
unfolding sync
sync-IsStepped k c r n ns laws waits drivers x o w alive h =
    let (hn, hs) = laws.named o x h in
    conclude-IsStepped k c r n ns laws waits x alive hn hs
      (decide k c r drivers x.status.stage x (o, w))
      (decide-IsBefore k c r n ns laws waits x alive hn hs drivers o w h)
