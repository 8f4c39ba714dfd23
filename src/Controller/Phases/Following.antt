-- ===== src/Controller/Phases/Following.antt =====
-- Stage TransferInProgress: while the volume backup cannot be read, the status is written from
-- within the handler.
use kdmp.Base.{
  false, some, Text, Result, ok, err, ◌≡◌, ◌⊎◌, inl, inr, refl, ap, ◌∙◌, arith, [], Result-cases,
  codes,
}
use kdmp.Api.{DataExport, Stage, Status, VolumeBackup}
use kdmp.Services.{
  Cluster, Client, ClientLaws, Retry, RetryLaws, AttemptPost, ResultPost, Retried-rule,
}
use kdmp.Drivers.{Driver, JobState, JobStatus, JobConditionType}
use kdmp.Controller.Flow.{UpdateDataExportDetail, Verdict, write, quit, crash, to_status}
use kdmp.Controller.Update.{override_stage, override_status, apply_detail, update_status}
use kdmp.Controller.Update.Stored.{update_status-IsPut, apply_detail-apply_detail}
use kdmp.Controller.Transfer.{
  Reading, read_task, completed_verdict, volume_backup_of, completed, by_state, by_condition,
  follow, transfer_in_progress,
}
use kdmp.Controller.Phases.{Allowed, Worked}

abbrev pub going_on : UpdateDataExportDetail
going_on = to_status Status.in_progress []

-- The job is still to be followed.
abbrev pub IsOpen : Status → Type 0
IsOpen Status.successful = ⊥
IsOpen Status.failed = ⊥
IsOpen _ = Unit

module _ (k : Cluster) (c : Client) (r : Retry) (n ns : Text) (laws : ClientLaws c n ns)
    (waits : RetryLaws r) (x : DataExport) (alive : x.deleting ≡ false) where
  -- What is stored is the object x, or x with status InProgress.
  abbrev pub IsGoing : c.Objects → Type 0
  IsGoing o = (laws.stored o ≡ some x) ⊎ (laws.stored o ≡ some (apply_detail going_on x))

  abbrev IsReading : Reading k c r → Type 0
  IsReading s = IsGoing s.objects × (s.de.name ≡ n) × (s.de.namespace ≡ ns)

  IsPut-IsGoing :
      (y de : DataExport) (o : c.Objects)
      → laws.stored o ≡ some y
      → y.deleting ≡ false
      → (y ≡ x) ⊎ (y ≡ apply_detail going_on x)
      → de.name ≡ n
      → de.namespace ≡ ns
      → let ((o', de'), e) = update_status c r de going_on o in
        IsGoing o' × (de'.name ≡ n) × (de'.namespace ≡ ns)
  IsPut-IsGoing y de o h live e hn hs =
      let p = update_status-IsPut c r n ns laws waits going_on y de o h live hn hs in
      (going p.0 e, p.2, p.3)
    where
      o' : c.Objects
      o' = (update_status c r de going_on o).0.0

      going :
          (laws.stored o' ≡ some y) ⊎ (laws.stored o' ≡ some (apply_detail going_on y))
          → (y ≡ x) ⊎ (y ≡ apply_detail going_on x)
          → IsGoing o'
      going (inl p) (inl q) = inl (p ∙ ap some q)
      going (inl p) (inr q) = inr (p ∙ ap some q)
      going (inr p) (inl q) = inr (p ∙ ap (λ z. some (apply_detail going_on z)) q)
      going (inr p) (inr q) = inr (
          p
          ∙ ap (λ z. some (apply_detail going_on z)) q
          ∙ ap some (apply_detail-apply_detail going_on x))

  update-IsGoing :
      (de : DataExport) (o : c.Objects)
      → IsGoing o
      → de.name ≡ n
      → de.namespace ≡ ns
      → let ((o', de'), e) = update_status c r de going_on o in
        IsGoing o' × (de'.name ≡ n) × (de'.namespace ≡ ns)
  unfolding apply_detail
  update-IsGoing de o (inl h) hn hs = IsPut-IsGoing x de o h alive (inl refl) hn hs
  update-IsGoing de o (inr h) hn hs =
      IsPut-IsGoing (apply_detail going_on x) de o h alive (inr refl) hn hs

  read_task-AttemptPost :
      (name namespace : Text) (s : Reading k c r)
      → IsReading s
      → AttemptPost IsReading (λ s' _. IsReading s') (read_task k c r name namespace s)
  unfolding read_task
  read_task-AttemptPost name namespace s i =
      ground (arith, update-IsGoing s.de s.objects i.0 i.1 i.2)

  -- The verdict stays in the stage, with a status of Worked.
  abbrev IsWork : Verdict → Type 0
  IsWork (write b de d) =
      (de.name ≡ n)
      × (de.namespace ≡ ns)
      × (d.remove_finalizer ≡ false)
      × (d.stage ≡ Stage.unset)
      × Worked d.status
  IsWork (quit b e) = Unit
  IsWork crash = Unit

  abbrev IsFollowed : (c.Objects × k.World) × Verdict → Type 0
  IsFollowed ((o, w), v) = IsGoing o × IsWork v

  completed_verdict-IsFollowed :
      (name : Text) (progress : JobStatus k.Float64)
      (z : Reading k c r × Result (VolumeBackup k.Float64))
      → ResultPost IsReading (λ s' _. IsReading s') z
      → IsFollowed (completed_verdict k c r name progress z)
  unfolding completed_verdict
  completed_verdict-IsFollowed name progress (s, ok vb) (g, hn, hs) = ground arith
  completed_verdict-IsFollowed name progress (s, err e) (g, hn, hs) = ground arith

  abbrev start : c.Objects → k.World → DataExport → Reading k c r
  start o w de = record { objects = o; world = w; de = de; vb_err = codes "<nil>" }

  completed-IsFollowed :
      (name : Text) (de : DataExport) (progress : JobStatus k.Float64) (o : c.Objects) (w : k.World)
      → IsGoing o
      → de.name ≡ n
      → de.namespace ≡ ns
      → IsFollowed (completed k c r name de progress (o, w))
  unfolding completed
  completed-IsFollowed name de progress o w g hn hs =
      elim (Result-cases (volume_backup_of k c r name de)) [
        | inr (e, h) ↦ rw (h, completed) (g, (hn, hs, refl, refl, inl refl))
        | inl ((ns', name'), h) ↦
            rw (h, completed)
              (completed_verdict-IsFollowed name' progress
                (r.do_retry (Reading k c r) (VolumeBackup k.Float64) (read_task k c r name' ns')
                  (start o w de))
                (Retried-rule IsReading (λ s' _. IsReading s') (read_task k c r name' ns')
                  (read_task-AttemptPost name' ns') (start o w de)
                  (waits.is_retried (Reading k c r) (VolumeBackup k.Float64)
                    (read_task k c r name' ns') (start o w de))
                  (g, hn, hs)))
      ]

  by_state-IsFollowed :
      (j : JobState) (name : Text) (de : DataExport) (progress : JobStatus k.Float64)
      (o : c.Objects) (w : k.World)
      → IsGoing o
      → de.name ≡ n
      → de.namespace ≡ ns
      → IsFollowed (by_state k c r j name de progress (o, w))
  unfolding by_state
  by_state-IsFollowed JobState.failed name de progress o w g hn hs =
      (g, (hn, hs, refl, refl, inl refl))
  by_state-IsFollowed JobState.completed name de progress o w g hn hs =
      completed-IsFollowed name de progress o w g hn hs
  by_state-IsFollowed JobState.in_progress name de progress o w g hn hs =
      (g, (hn, hs, refl, refl, inr (inl refl)))

  by_condition-IsFollowed :
      (j : JobConditionType) (name : Text) (de : DataExport) (progress : JobStatus k.Float64)
      (o : c.Objects) (w : k.World)
      → IsGoing o
      → de.name ≡ n
      → de.namespace ≡ ns
      → IsFollowed (by_condition k c r j name de progress (o, w))
  unfolding by_condition
  by_condition-IsFollowed JobConditionType.failed name de progress o w g hn hs =
      (g, (hn, hs, refl, refl, inl refl))
  by_condition-IsFollowed JobConditionType.unset name de progress o w g hn hs =
      (g, (hn, hs, refl, refl, inr (inl refl)))
  by_condition-IsFollowed _ name de progress o w g hn hs =
      by_state-IsFollowed progress.state name de progress o w g hn hs

  follow-IsFollowed :
      (name : Text) (driver : Driver k.World k.Float64) (de : DataExport) (o : c.Objects)
      (w : k.World)
      → IsGoing o
      → de.name ≡ n
      → de.namespace ≡ ns
      → IsFollowed (follow k c r name driver de (o, w))
  unfolding follow
  follow-IsFollowed name driver de o w g hn hs =
      elim (Result-cases (driver.job_status de.status.transfer_id w).1) [
        | inr (e, h) ↦ rw (h, follow) (g, (hn, hs, refl, refl, inl refl))
        | inl (progress, h) ↦
            rw (h, follow)
              (by_condition-IsFollowed progress.status name de progress o
                (driver.job_status de.status.transfer_id w).0 g hn hs)
      ]

  -- What is stored once the handler has returned.
  abbrev pub IsLeft : Status → c.Objects → Type 0
  IsLeft t o =
      (laws.stored o ≡ some x) ⊎ (IsOpen t × (laws.stored o ≡ some (apply_detail going_on x)))

  abbrev pub IsDone : (c.Objects × k.World) × Verdict → DataExport → Status → Type 0
  IsDone ((o, w), v) de t = IsLeft t o × Allowed de Stage.transfer_in_progress t v

  IsWork-Allowed :
      (de : DataExport) (t : Status) (v : Verdict)
      → IsOpen t
      → de.name ≡ n
      → de.namespace ≡ ns
      → IsWork v
      → Allowed de Stage.transfer_in_progress t v
  unfolding override_stage override_status
  IsWork-Allowed de t (quit b e) p hn hs i = tt
  IsWork-Allowed de t crash p hn hs i = tt
  IsWork-Allowed de Status.successful (write b de' d) p hn hs i = absurd p
  IsWork-Allowed de Status.failed (write b de' d) p hn hs i = absurd p
  IsWork-Allowed de _ (write b de' d) p hn hs i = ground arith

  IsFollowed-IsDone :
      (de : DataExport) (t : Status) (z : (c.Objects × k.World) × Verdict)
      → IsOpen t
      → de.name ≡ n
      → de.namespace ≡ ns
      → IsFollowed z
      → IsDone z de t
  IsFollowed-IsDone de t ((o, w), v) p hn hs (inl h, i) = (inl h, IsWork-Allowed de t v p hn hs i)
  IsFollowed-IsDone de t ((o, w), v) p hn hs (inr h, i) =
      (inr (p, h), IsWork-Allowed de t v p hn hs i)

  pub transfer_in_progress-Allowed :
      (t : Status) (name : Text) (driver : Driver k.World k.Float64) (de : DataExport)
      (o : c.Objects) (w : k.World)
      → laws.stored o ≡ some x
      → de.name ≡ n
      → de.namespace ≡ ns
      → IsDone (transfer_in_progress k c r t name driver de (o, w)) de t
  unfolding transfer_in_progress override_stage override_status
  transfer_in_progress-Allowed Status.successful name driver de o w g hn hs = ground arith
  transfer_in_progress-Allowed Status.failed name driver de o w g hn hs = ground arith
  transfer_in_progress-Allowed t name driver de o w g hn hs =
      IsFollowed-IsDone de t (follow k c r name driver de (o, w)) tt hn hs
        (follow-IsFollowed name driver de o w (inl g) hn hs)
