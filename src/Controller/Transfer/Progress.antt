-- ===== src/Controller/Transfer/Progress.antt =====
-- Following the transfer job (stage TransferInProgress of Controller.sync in reconcile.go).
use kdmp.Base.{
  true, false, none, some, ok, err, [], ◌∷◌, Text, codes, Error, errorf, format, Result,
  is_not_found, text_eq, is_empty, if◌then◌else◌,
}
use kdmp.Api.{DataExport, Stage, Status, VolumeBackup}
use kdmp.Services.{Cluster, Client, Retry, Attempt, done, again, give_up}
use kdmp.Drivers.{Driver, JobState, JobStatus, JobConditionType}
use kdmp.Drivers.Name
use kdmp.Jobs.{parse_job_id}
use kdmp.Controller.Flow.{to_stage, to_status, Verdict, write, fail_with}
use kdmp.Controller.Update.{update_status}

module _ (k : Cluster) (c : Client) (r : Retry) where
  -- The objects, the world, the data export in hand, and vbErr.
  pub record Reading : Type 0 where
    pub objects : c.Objects
    pub world : k.World
    pub de : DataExport
    pub vb_err : Text

module _ (k : Cluster) (c : Client) (r : Retry) where
  -- After a failed read that is to be repeated the status is set to InProgress.
  unfoldable pub retry_read :
      Reading k c r → Error → Reading k c r × Attempt (VolumeBackup k.Float64)
  retry_read s e =
      let ((o, de), x) = update_status c r s.de (to_status Status.in_progress []) s.objects in
      let s' : Reading k c r = record s { objects = o; de = de; vb_err = e.text } in
      elim x [
        | some f ↦ (s', give_up f)
        | none ↦ (s', again (errorf (format "failed to read VolumeBackup CR: %v" (e.text ∷ []))))
      ]

  -- vbTask.
  unfoldable pub read_task :
      Text → Text → Reading k c r → Reading k c r × Attempt (VolumeBackup k.Float64)
  unfolding retry_read
  read_task name namespace s =
      let (w, x) = k.get_volume_backup name namespace s.world in
      elim x [
        | ok vb ↦ (record s { world = w; vb_err = codes "<nil>" }, done vb)
        | err e ↦
            if is_not_found e
            then (
              record s { world = w; vb_err = e.text },
              give_up (errorf (format "volumebackup CR %v/%v not found" (namespace ∷ name ∷ []))),
            )
            else retry_read (record s { world = w }) e
      ]

  unfoldable pub completed_verdict :
      Text
      → JobStatus k.Float64
      → Reading k c r × Result (VolumeBackup k.Float64)
      → (c.Objects × k.World) × Verdict
  completed_verdict name progress (s, ok vb) = (
    (s.objects, s.world),
    write false s.de (record (to_status Status.successful []) {
      snapshot_id = vb.snapshot_id;
      size = vb.total_bytes;
      progress_percentage = k.to_int progress.progress_percents;
    }),
  )
  completed_verdict name progress (s, err _) = (
    (s.objects, s.world),
    fail_with s.de
        (format "max retries done, failed to read VolumeBackup CR %v: %v" (name ∷ s.vb_err ∷ [])),
  )

  -- The volume backup of a finished job: its name and namespace by the driver's name.
  unfoldable pub volume_backup_of : Text → DataExport → Result (Text × Text)
  volume_backup_of driver_name de =
      if text_eq driver_name Name.kopia_restore
      then ok (de.spec.source.namespace, de.spec.source.name)
      else if text_eq driver_name Name.kopia_backup
      then parse_job_id de.status.transfer_id
      else ok ([], [])

  unfoldable pub completed :
      Text
      → DataExport
      → JobStatus k.Float64
      → c.Objects × k.World
      → (c.Objects × k.World) × Verdict
  unfolding read_task completed_verdict volume_backup_of
  completed driver_name de progress (o, w) = elim (volume_backup_of driver_name de) [
    | err e ↦ (
      (o, w),
      fail_with de (
          format "failed to parse job ID %v from DataExport CR: %v: %v"
            (de.status.transfer_id ∷ de.name ∷ e.text ∷ [])),
    )
    | ok (namespace, name) ↦ completed_verdict name progress (
        r.do_retry (Reading k c r) (VolumeBackup k.Float64) (read_task name namespace)
          (record { objects = o; world = w; de = de; vb_err = codes "<nil>" }))
  ]

  -- The answer by the job's state, where the job's condition is neither Failed nor missing.
  unfoldable pub by_state :
      JobState
      → Text
      → DataExport
      → JobStatus k.Float64
      → c.Objects × k.World
      → (c.Objects × k.World) × Verdict
  unfolding completed
  by_state JobState.failed driver_name de progress s = (
    s,
    write true de (
        to_status Status.failed
          (format "%s transfer job failed: %s" (de.status.transfer_id ∷ progress.reason ∷ []))),
  )
  by_state JobState.completed driver_name de progress s = completed driver_name de progress s
  by_state JobState.in_progress driver_name de progress s =
      (s, write false de (to_status Status.in_progress []))

  unfoldable pub by_condition :
      JobConditionType
      → Text
      → DataExport
      → JobStatus k.Float64
      → c.Objects × k.World
      → (c.Objects × k.World) × Verdict
  unfolding by_state
  by_condition JobConditionType.failed driver_name de progress s = (
    s,
    write true de (
        to_status Status.failed (
          if is_empty progress.reason
          then format "internal error from executor" []
          else progress.reason)),
  )
  by_condition JobConditionType.unset driver_name de progress s =
      (s, write true de (to_status Status.in_progress []))
  by_condition _ driver_name de progress s = by_state progress.state driver_name de progress s

  unfoldable pub follow :
      Text
      → Driver k.World k.Float64
      → DataExport
      → c.Objects × k.World
      → (c.Objects × k.World) × Verdict
  unfolding by_condition
  follow driver_name driver de (o, w) =
      let (w', x) = driver.job_status de.status.transfer_id w in
      elim x [
        | err e ↦ (
          (o, w'),
          fail_with de
              (format "failed to get %s job status: %s" (de.status.transfer_id ∷ e.text ∷ [])),
        )
        | ok progress ↦ by_condition progress.status driver_name de progress (o, w')
      ]

  unfoldable pub transfer_in_progress :
      Status
      → Text
      → Driver k.World k.Float64
      → DataExport
      → c.Objects × k.World
      → (c.Objects × k.World) × Verdict
  unfolding follow
  transfer_in_progress Status.successful driver_name driver de s =
      (s, write false de (to_stage Stage.cleanup Status.successful []))
  transfer_in_progress Status.failed driver_name driver de s =
      (s, write false de (to_stage Stage.cleanup Status.failed []))
  transfer_in_progress _ driver_name driver de s = follow driver_name driver de s
