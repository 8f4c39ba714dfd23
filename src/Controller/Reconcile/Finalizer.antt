-- ===== src/Controller/Reconcile/Finalizer.antt =====
-- What one call of Reconcile does with a stored data export.
use kdmp.Base.{true, false, some, Text, ◌≡◌, ◌⊎◌, inl, inr, refl, ◌∙◌, Result-cases, Bool-cases}
use kdmp.Api.{DataExport}
use kdmp.Services.{Cluster, Client, ClientLaws, Retry, RetryLaws}
use kdmp.Drivers.{Registry}
use kdmp.Controller.Update.{cleanup_finalizer}
use kdmp.Controller.Sync.{State, contains_finalizer}
use kdmp.Controller.Phases.Steps.{IsStepped, sync-IsStepped}
use kdmp.Controller.Reconcile.{set_finalizer, synced, with_finalizer, reconcile}

-- One step of the state machine for an object with the finalizer; without it the world is left
-- alone, and at most the finalizer is added.
abbrev pub IsReconciled :
    (k : Cluster) (c : Client) (r : Retry) (n ns : Text)
    → ClientLaws c n ns
    → DataExport
    → k.World
    → State k c r
    → Type 0
IsReconciled k c r n ns laws x w (o', w') =
    (contains_finalizer cleanup_finalizer x.finalizers ≡ true → IsStepped c n ns laws x o')
    × (contains_finalizer cleanup_finalizer x.finalizers ≡ false
        → (w' ≡ w)
          × ((laws.stored o' ≡ some x)
              ⊎ (laws.stored o' ≡ some (set_finalizer cleanup_finalizer x))))

module _ (k : Cluster) (c : Client) (r : Retry) (n ns : Text) (laws : ClientLaws c n ns)
    (waits : RetryLaws r) (drivers : Registry k.World k.Float64) (x : DataExport)
    (alive : x.deleting ≡ false) where
  -- The update that adds the finalizer.
  finalizer_put :
      (o : c.Objects)
      → laws.stored o ≡ some x
      → (laws.stored (c.update (set_finalizer cleanup_finalizer x) o).0 ≡ some x)
        ⊎ (laws.stored (c.update (set_finalizer cleanup_finalizer x) o).0
            ≡ some (set_finalizer cleanup_finalizer x))
  finalizer_put o h =
      let (hn, hs) = laws.named o x h in
      elim (Result-cases (c.update (set_finalizer cleanup_finalizer x) o).1) [
        | inl (t, g) ↦ inr (laws.update_done (set_finalizer cleanup_finalizer x) o hn hs alive g)
        | inr (e, g) ↦
            elim (laws.update_failed (set_finalizer cleanup_finalizer x) o e hn hs alive g) [
              | inl kept ↦ inl (kept ∙ h)
              | inr put ↦ inr put
            ]
      ]

  with_finalizer-IsReconciled :
      (o : c.Objects) (w : k.World)
      → laws.stored o ≡ some x
      → IsReconciled k c r n ns laws x w (with_finalizer k c r drivers x (o, w)).0
  unfolding with_finalizer synced
  with_finalizer-IsReconciled o w h =
      elim (Bool-cases (contains_finalizer cleanup_finalizer x.finalizers)) [
        | inl e ↦
            rw e ((λ _. sync-IsStepped k c r n ns laws waits drivers x o w alive h), (λ g. cc))
        | inr e ↦ rw e ((λ g. cc), (λ _. (refl, finalizer_put o h)))
      ]

-- One call of Reconcile for a stored data export that is not being deleted, whatever the services
-- answer: where the export has the finalizer, the object stored afterwards is one step of the state
-- machine on; where it lacks it, nothing is called but the client for data exports, and the object
-- stored afterwards is as it was or has the finalizer added.
pub reconcile-IsReconciled :
    (k : Cluster) (c : Client) (r : Retry) (n ns : Text) (laws : ClientLaws c n ns)
    (waits : RetryLaws r) (drivers : Registry k.World k.Float64) (x : DataExport) (o : c.Objects)
    (w : k.World)
    → x.deleting ≡ false
    → laws.stored o ≡ some x
    → IsReconciled k c r n ns laws x w (reconcile k c r drivers n ns (o, w)).0
unfolding reconcile
reconcile-IsReconciled k c r n ns laws waits drivers x o w alive h =
    let kept = laws.read_keeps o ∙ h in
    elim (Result-cases (c.read n ns o).1) [
      | inl (d, g) ↦
          let e = laws.read_stored o x d h g in
          rw (g, reconcile, e)
            (with_finalizer-IsReconciled k c r n ns laws waits drivers x alive (c.read n ns o).0 w
              kept)
      | inr (e, g) ↦
          rw (g, reconcile)
            ((λ _. (x, kept, inr (inr (refl, refl)), refl, refl, alive)), (λ _. (refl, inl kept)))
    ]
