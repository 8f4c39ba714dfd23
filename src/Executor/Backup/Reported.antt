-- ===== src/Executor/Backup/Reported.antt =====
-- What the driver of backups reports of the statuses that a backup writes.
use kdmp.Base.{
  Bool, true, false, Option, none, some, [], ◌∷◌, Text, Error, ◌≡◌, refl, is_empty, arith,
}
use kdmp.Api.{VolumeBackup}
use kdmp.Drivers.{JobState, JobStatus, JobConditionType}
use kdmp.Jobs.{to_job_status}
use kdmp.Executor.{Floats, BackupSummary}
use kdmp.Executor.VolumeBackups.{with_status}
use kdmp.Kopia.Executors.{State, backup_status}

module _ {F : Type 0} (floats : Floats F) (is_hundred : F → Bool) (vb : VolumeBackup F)
    (condition : JobConditionType) where
  -- What ToJobStatus gives for the volume backup once the executor's status was written to it.
  abbrev pub reported : State BackupSummary → JobStatus F
  reported st =
      let stored = with_status (backup_status floats st) vb in
      to_job_status is_hundred floats.zero stored.progress_percentage stored.last_known_error
        condition

  -- A failure with the text of the executor's error, the end with a summary, or neither.
  abbrev pub Agrees : Option Error → Option BackupSummary → JobStatus F → Type 0
  Agrees (some e) s j = (j.state ≡ JobState.failed) × (j.reason ≡ e.text)
  Agrees none (some s) j = (j.state ≡ JobState.completed) × (j.reason ≡ [])
  Agrees none none j = (j.state ≡ JobState.in_progress) × (j.reason ≡ [])

  failed-Agrees :
      (p : F) (t : Text)
      → is_empty t ≡ false
      → let j = to_job_status is_hundred floats.zero p t condition in
        (j.state ≡ JobState.failed) × (j.reason ≡ t)
  unfolding to_job_status
  failed-Agrees p [] h = absurd (ground arith)
  failed-Agrees p (c ∷ t) h = (refl, refl)

  reported_by :
      (st : State BackupSummary) (e : Option Error) (s : Option BackupSummary)
      → is_hundred floats.hundred ≡ true
      → is_hundred floats.zero ≡ false
      → ((f : Error) → e ≡ some f → is_empty f.text ≡ false)
      → st.last_error ≡ e
      → st.summary ≡ s
      → Agrees e s (reported st)
  unfolding to_job_status with_status backup_status
  reported_by st (some e) s h z t p q = rw p (failed-Agrees floats.zero e.text (t e refl))
  reported_by st none (some s) h z t p q = rw (p, q) (ground arith)
  reported_by st none none h z t p q = rw (p, q) (ground arith)

  -- Of the status that a backup's executor writes to the volume backup, the driver reports a failed
  -- transfer with the error's text where the executor has an error, a completed one where it has
  -- none and a summary, and one in progress where it has neither, if the errors have texts, 100
  -- percent is complete and 0 percent is not.
  pub to_job_status-backup_status :
      (st : State BackupSummary)
      → is_hundred floats.hundred ≡ true
      → is_hundred floats.zero ≡ false
      → ((f : Error) → st.last_error ≡ some f → is_empty f.text ≡ false)
      → Agrees st.last_error st.summary (reported st)
  to_job_status-backup_status st h z t = reported_by st st.last_error st.summary h z t refl refl
