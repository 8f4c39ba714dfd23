-- ===== src/Controller/Phases/Before.antt =====
-- The stored object up to the last write of a sync.
use kdmp.Base.{
  Bool, true, false, ◌&&◌, some, Text, ◌≡◌, ◌⊎◌, inl, inr, refl, sym, subst, Result-cases,
  if◌then◌else◌,
}
use kdmp.Api.{DataExport, Stage, Status}
use kdmp.Services.{Cluster, Client, ClientLaws, Retry, RetryLaws}
use kdmp.Drivers.{Driver, Registry}
use kdmp.Drivers
use kdmp.Controller.Flow.{Verdict, write, quit, crash}
use kdmp.Controller.Update.{override_stage, override_status, apply_detail}
use kdmp.Controller.Refs.{get_driver_type}
use kdmp.Controller.Sync.{State, dispatch, with_driver, find_driver, by_driver_type, decide}
use kdmp.Controller.Transfer.{transfer_in_progress}
use kdmp.Controller.Phases.{Allowed, Step}
use kdmp.Controller.Phases.Snapshots.{
  stage_snapshot_scheduled-Allowed, stage_snapshot_in_progress-Allowed,
  stage_snapshot_restore-Allowed, stage_snapshot_restore_in_progress-Allowed,
}
use kdmp.Controller.Phases.LocalRestores.{
  stage_local_snapshot_restore-Allowed, stage_local_snapshot_restore_in_progress-Allowed,
}
use kdmp.Controller.Phases.Transfers.{
  transfer_scheduled-Allowed, stage_initial-Allowed, stage_cleanup-Allowed,
}
use kdmp.Controller.Phases.Following.{going_on, IsOpen, IsDone, transfer_in_progress-Allowed}

-- A verdict that writes takes a step.
abbrev pub Sound : DataExport → Stage → Status → Verdict → Type 0
Sound de s t (write b de' d) =
    (de'.name ≡ de.name)
    × (de'.namespace ≡ de.namespace)
    × (d.remove_finalizer ≡ false)
    × Step de s t (override_stage d.stage s) (override_status d.status t)
Sound de s t (quit b e) = Unit
Sound de s t crash = Unit

Allowed-Sound :
    (de : DataExport) (s : Stage) (t : Status) (v : Verdict) → Allowed de s t v → Sound de s t v
Allowed-Sound de s t (write b de' d) (n, ns, f, h) = (n, ns, f, inl h)
Allowed-Sound de s t (quit b e) h = tt
Allowed-Sound de s t crash h = tt

pub if-false {ℓ} : {A : Type ℓ} (b : Bool) (p q : A) → b ≡ false → (if b then p else q) ≡ q
if-false true p q h = cc
if-false false p q h = refl

if-and-false {ℓ} : {A : Type ℓ} (a b : Bool) (p q : A) → a ≡ false → (if a && b then p else q) ≡ q
if-and-false true b p q h = cc
if-and-false false b p q h = refl

-- While the job is followed the status may become InProgress before a step is taken.
pub going-Step :
    (de : DataExport) (t : Status)
    → IsOpen t
    → Step de Stage.transfer_in_progress t Stage.transfer_in_progress Status.in_progress
going-Step de Status.successful p = absurd p
going-Step de Status.failed p = absurd p
going-Step de _ p = inl (refl, inr (inl refl))

stays :
    (de : DataExport) (t : Status) (s' : Stage) (t' : Status)
    → IsOpen t
    → Step de Stage.transfer_in_progress t s' t'
    → s' ≡ Stage.transfer_in_progress
stays de Status.successful s' t' p h = absurd p
stays de Status.failed s' t' p h = absurd p
stays de _ s' t' p (inl h) = h.0
stays de _ s' t' p (inr (inl h)) = h.0
stays de _ s' t' p (inr (inr h)) = h.0

pub then-Step :
    (de : DataExport) (t : Status) (s' : Stage) (d : Status)
    → IsOpen t
    → Step de Stage.transfer_in_progress t s' (override_status d t)
    → Step de Stage.transfer_in_progress t s' (override_status d Status.in_progress)
unfolding override_status
then-Step de t s' Status.unset p h =
    subst (λ s. Step de Stage.transfer_in_progress t s Status.in_progress)
      (sym (stays de t s' t p h)) (going-Step de t p)
then-Step de t s' _ p h = h

module _ (k : Cluster) (c : Client) (r : Retry) (n ns : Text) (laws : ClientLaws c n ns)
    (waits : RetryLaws r) (x : DataExport) (alive : x.deleting ≡ false) (hn : x.name ≡ n)
    (hs : x.namespace ≡ ns) where
  -- Before the last write: the object is as it was, or its job is still followed.
  abbrev pub IsBefore : Stage → Status → State k c r × Verdict → Type 0
  IsBefore s t ((o, w), v) =
      ((laws.stored o ≡ some x)
        ⊎ ((s ≡ Stage.transfer_in_progress)
            × IsOpen t
            × (laws.stored o ≡ some (apply_detail going_on x))))
      × Sound x s t v

  from_following :
      (t : Status) (name : Text) (driver : Driver k.World k.Float64) (s : State k c r)
      (z : State k c r × Verdict)
      → IsDone k c r n ns laws waits x alive z x t
      → IsBefore Stage.transfer_in_progress t z
  from_following t name driver s ((o, w), v) (inl h, a) =
      (inl h, Allowed-Sound x Stage.transfer_in_progress t v a)
  from_following t name driver s ((o, w), v) (inr (p, h), a) =
      (inr (refl, p, h), Allowed-Sound x Stage.transfer_in_progress t v a)

  dispatch-IsBefore :
      (s : Stage) (t : Status) (name : Text) (driver : Driver k.World k.Float64) (o : c.Objects)
      (w : k.World)
      → laws.stored o ≡ some x
      → IsBefore s t (dispatch k c r s t name driver x (o, w))
  unfolding dispatch
  dispatch-IsBefore Stage.initial t name driver o w h =
      (inl h, Allowed-Sound x Stage.initial t _ (stage_initial-Allowed k r x w c t))
  dispatch-IsBefore Stage.snapshot_scheduled t name driver o w h = (
    inl h,
    Allowed-Sound x Stage.snapshot_scheduled t _ (stage_snapshot_scheduled-Allowed k x w t),
  )
  dispatch-IsBefore Stage.snapshot_in_progress t name driver o w h = (
    inl h,
    Allowed-Sound x Stage.snapshot_in_progress t _ (stage_snapshot_in_progress-Allowed k x w t),
  )
  dispatch-IsBefore Stage.snapshot_restore t name driver o w h =
      (inl h, Allowed-Sound x Stage.snapshot_restore t _ (stage_snapshot_restore-Allowed k x w t))
  dispatch-IsBefore Stage.snapshot_restore_in_progress t name driver o w h = (
    inl h,
    Allowed-Sound x Stage.snapshot_restore_in_progress t _
        (stage_snapshot_restore_in_progress-Allowed k x w t),
  )
  dispatch-IsBefore Stage.local_snapshot_restore t name driver o w h = (
    inl h,
    Allowed-Sound x Stage.local_snapshot_restore t _
        (stage_local_snapshot_restore-Allowed k r x w t),
  )
  dispatch-IsBefore Stage.local_snapshot_restore_in_progress t name driver o w h = (
    inl h,
    Allowed-Sound x Stage.local_snapshot_restore_in_progress t _
        (stage_local_snapshot_restore_in_progress-Allowed k r x w t),
  )
  dispatch-IsBefore Stage.transfer_scheduled t name driver o w h = (
    inl h,
    Allowed-Sound x Stage.transfer_scheduled t _ (transfer_scheduled-Allowed k r x w name driver t),
  )
  dispatch-IsBefore Stage.transfer_in_progress t name driver o w h =
      from_following t name driver (o, w) (transfer_in_progress k c r t name driver x (o, w))
        (transfer_in_progress-Allowed k c r n ns laws waits x alive t name driver x o w h hn hs)
  dispatch-IsBefore Stage.cleanup t name driver o w h =
      (inl h, Allowed-Sound x Stage.cleanup t _ (stage_cleanup-Allowed k r x w c driver t))
  dispatch-IsBefore _ t name driver o w h = (inl h, tt)

  with_driver_alive :
      (name : Text) (driver : Driver k.World k.Float64) (s : State k c r)
      → with_driver k c r name driver x s
        ≡ dispatch k c r x.status.stage x.status.status name driver x s
  unfolding with_driver
  with_driver_alive name driver (o, w) = if-false x.deleting _ _ alive

  by_driver_type-IsBefore :
      (drivers : Registry k.World k.Float64) (o : c.Objects) (w : k.World)
      → laws.stored o ≡ some x
      → IsBefore x.status.stage x.status.status (by_driver_type k c r drivers x (o, w))
  unfolding by_driver_type find_driver override_stage override_status
  by_driver_type-IsBefore drivers o w h = elim (Result-cases (get_driver_type x)) [
    | inr (e, g) ↦ rw (g, by_driver_type) (inl h, (refl, refl, refl, inr (inl (refl, refl))))
    | inl (name, g) ↦
        rw (g, by_driver_type)
          (elim (Result-cases (Drivers.get name drivers)) [
            | inr (e, g') ↦ rw (g', find_driver) (inl h, (refl, refl, refl, inr (inl (refl, refl))))
            | inl (driver, g') ↦
                rw (g', find_driver)
                  (rw (with_driver_alive name driver (o, w))
                    (dispatch-IsBefore x.status.stage x.status.status name driver o w h))
          ])
  ]

  -- Up to the last write, from the stage s that the object is in.
  decide_at :
      (drivers : Registry k.World k.Float64) (s : Stage) (st : State k c r)
      → (s ≡ Stage.unset) ⊎ (decide k c r drivers s x st ≡ by_driver_type k c r drivers x st)
  unfolding decide
  decide_at drivers Stage.unset st = inl refl
  decide_at drivers _ st = inr (if-and-false x.deleting _ _ _ alive)

  unset-IsBefore :
      (drivers : Registry k.World k.Float64) (t : Status) (o : c.Objects) (w : k.World)
      → laws.stored o ≡ some x
      → IsBefore Stage.unset t (decide k c r drivers Stage.unset x (o, w))
  unfolding decide override_stage override_status
  unset-IsBefore drivers t o w h = (inl h, (refl, refl, refl, inl (refl, refl)))

  pub decide-IsBefore :
      (drivers : Registry k.World k.Float64) (o : c.Objects) (w : k.World)
      → laws.stored o ≡ some x
      → IsBefore x.status.stage x.status.status (decide k c r drivers x.status.stage x (o, w))
  decide-IsBefore drivers o w h = elim (decide_at drivers x.status.stage (o, w)) [
    | inl e ↦
        subst (λ s. IsBefore s x.status.status (decide k c r drivers s x (o, w))) (sym e)
          (unset-IsBefore drivers x.status.status o w h)
    | inr e ↦
        subst (IsBefore x.status.stage x.status.status) (sym e)
          (by_driver_type-IsBefore drivers o w h)
  ]
