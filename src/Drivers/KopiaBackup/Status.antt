-- ===== src/Drivers/KopiaBackup/Status.antt =====
-- What JobStatus of the backup driver says of a transfer.
use kdmp.Base.{
  Bool, true, false, List, [], ◌∷◌, Text, Error, Result, ok, err, Call, ◌≡◌, inl, inr, refl, sym,
  ap, ◌∙◌, Bool-cases, is_empty, is_not_found, arith, Option, none, some,
}
use kdmp.Base.Results.{wrap, wrap_ok, bind_ok, ◌>>=◌}
use kdmp.Api.{VolumeBackup}
use kdmp.Drivers.{JobState, JobStatus, JobConditionType}
use kdmp.Drivers.KopiaJob.{driver_status, named_error, node_error, with_id, bad_id}
use kdmp.Drivers.KopiaBackup.{
  unread_status, status_without, read_status, transfer_status, job_status_of, named_status,
  job_status,
}
use kdmp.Jobs.{to_job_status, parse_job_id, is_job_failed, is_job_or_node_failed, JobCondition}
use kdmp.Jobs.Batch.{BatchServices, Job}
use kdmp.Jobs.Config.{setting}
use kdmp.Jobs.State.{
  job_node_exists, job_or_node_failed, is_job_pending, first_condition, ready_error,
}

-- Neither the job nor its node failed.
is_job_or_node_failed-neither :
    (node : Text) (e : Option Error) (cs : List JobCondition)
    → is_job_or_node_failed node e cs ≡ (false, false)
    → is_job_failed cs ≡ false
unfolding is_job_or_node_failed
is_job_or_node_failed-neither [] e cs h = ap (λ z. z.0) h
is_job_or_node_failed-neither (c ∷ node) (some e) cs h =
    let k : true ≡ false = ap (λ z. z.1) h in cc
is_job_or_node_failed-neither (c ∷ node) none cs h = ap (λ z. z.0) h

module _ {W F : Type 0} (b : BatchServices W F) where
  -- The volume backup was read, its progress is full and it names no error.
  abbrev pub Full : Text → Text → W → W → Type 0
  Full namespace name w w' =
      (vb : VolumeBackup F) × (b.get_volume_backup name namespace w ≡ (w', ok vb))
      × (b.is_hundred vb.progress_percentage ≡ true)
      × (vb.last_known_error ≡ [])

  -- The job was read and had not failed, and its volume backup reports all of the transfer.
  abbrev pub Done : Text → Text → W → W → Type 0
  Done namespace name w w' =
      (job : Job b.Quantity) × (w₁ : W) × (w₂ : W) × (b.get_job name namespace w ≡ (w₁, ok job))
      × (is_job_failed job.conditions ≡ false)
      × Full namespace name w₂ w'

module _ {W F : Type 0} (b : BatchServices W F) (below : b.is_hundred b.zero_percent ≡ false) where
  driver_status-completed :
      (p : F) (msg : Text) (s : JobConditionType)
      → (driver_status b p msg s).state ≡ JobState.completed
      → (msg ≡ []) × (b.is_hundred p ≡ true)
  unfolding to_job_status
  driver_status-completed p [] s h = (refl, ground arith)
  driver_status-completed p (c ∷ msg) s h = cc

  -- A status that reports progress zero is none of a completed transfer.
  zero-uncompleted :
      (msg : Text) (s : JobConditionType)
      → (driver_status b b.zero_percent msg s).state ≡ JobState.completed
      → false ≡ true
  zero-uncompleted msg s h =
      let (m, p) = driver_status-completed b.zero_percent msg s h in sym below ∙ p

  unread_status-uncompleted :
      (namespace name : Text) (job : Job b.Quantity) (e : Error) (pending : Bool) (w w' : W)
      (st : JobStatus F)
      → unread_status b namespace name job e pending w ≡ (w', ok st)
      → st.state ≡ JobState.completed
      → false ≡ true
  unfolding unread_status
  unread_status-uncompleted namespace name job e true w w' st h c =
      let k : ok (driver_status b b.zero_percent [] (first_condition job.conditions)) ≡ ok st =
        ap (λ z. z.1) h in
      let q : driver_status b b.zero_percent [] (first_condition job.conditions) ≡ st = cc in
      zero-uncompleted [] (first_condition job.conditions) (ap (λ s. s.state) q ∙ c)
  unread_status-uncompleted namespace name job e false w w' st h c = cc

  status_without-uncompleted :
      (namespace name : Text) (job : Job b.Quantity) (e : Error) (w w' : W) (st : JobStatus F)
      → status_without b namespace name job e w ≡ (w', ok st)
      → st.state ≡ JobState.completed
      → false ≡ true
  unfolding status_without
  status_without-uncompleted namespace name job e w w' st h c = elim (Bool-cases (is_not_found e)) [
    | inl p ↦
        (let h' : (setting b (is_job_pending b job) >>= unread_status b namespace name job e) w
              ≡ (w', ok st) =
            rw p at h in
          unread_status-uncompleted namespace name job e (is_job_pending b job w).1
            (is_job_pending b job w).0 w' st h' c)
    | inr p ↦
        (let h' : unread_status b namespace name job e false w ≡ (w', ok st) = rw p at h in
          unread_status-uncompleted namespace name job e false w w' st h' c)
  ]

  read_status-Full :
      (namespace name : Text) (job : Job b.Quantity) (z : W × Result (VolumeBackup F)) (w' : W)
      (st : JobStatus F)
      → read_status b namespace name job z.1 z.0 ≡ (w', ok st)
      → st.state ≡ JobState.completed
      → (vb : VolumeBackup F) × (z ≡ (w', ok vb))
        × (b.is_hundred vb.progress_percentage ≡ true)
        × (vb.last_known_error ≡ [])
  unfolding read_status
  read_status-Full namespace name job (s, ok vb) w' st h c =
      let k : ok (
            driver_status b vb.progress_percentage vb.last_known_error
              (first_condition job.conditions))
          ≡ ok st =
        ap (λ z. z.1) h in
      let q : driver_status b vb.progress_percentage vb.last_known_error
            (first_condition job.conditions)
          ≡ st =
        cc in
      let (m, p) =
        driver_status-completed vb.progress_percentage vb.last_known_error
          (first_condition job.conditions) (ap (λ s. s.state) q ∙ c) in
      (vb, ap (λ z. (z.0, ok vb)) h, p, m)
  read_status-Full namespace name job (s, err x) w' st h c =
      let k = status_without-uncompleted namespace name job x s w' st h c in cc

  job_status_of-Full :
      (namespace name : Text) (job : Job b.Quantity) (failed : Bool × Bool) (w w' : W)
      (st : JobStatus F)
      → job_status_of b namespace name job failed w ≡ (w', ok st)
      → st.state ≡ JobState.completed
      → (failed ≡ (false, false)) × Full b namespace name w w'
  unfolding job_status_of transfer_status
  job_status_of-Full namespace name job (true, n) w w' st h c =
      let k =
        zero-uncompleted _ (first_condition job.conditions)
          (ap (λ z. elim z.1 [ ok s ↦ s.state | err _ ↦ JobState.failed ]) h ∙ c) in
      cc
  job_status_of-Full namespace name job (false, true) w w' st h c =
      let k =
        zero-uncompleted _ (first_condition job.conditions)
          (ap (λ z. elim z.1 [ ok s ↦ s.state | err _ ↦ JobState.failed ]) h ∙ c) in
      cc
  job_status_of-Full namespace name job (false, false) w w' st h c =
      (refl, read_status-Full namespace name job (b.get_volume_backup name namespace w) w' st h c)

  job_or_node_failed-neither :
      (job : Job b.Quantity) (w : W)
      → (job_or_node_failed b job w).1 ≡ (false, false)
      → is_job_failed job.conditions ≡ false
  unfolding job_or_node_failed
  job_or_node_failed-neither job w h = elim (Bool-cases (is_empty job.spec.node_name)) [
    | inl e ↦ is_job_or_node_failed-neither [] none job.conditions (rw (e, job_or_node_failed) at h)
    | inr e ↦
        is_job_or_node_failed-neither job.spec.node_name
          (ready_error b (b.is_node_ready job.spec.node_name w).1) job.conditions
          (rw (e, job_or_node_failed) at h)
  ]

  named_status-Done :
      (namespace name : Text) (w w' : W) (st : JobStatus F)
      → named_status b namespace name w ≡ (w', ok st)
      → st.state ≡ JobState.completed
      → Done b namespace name w w'
  unfolding named_status
  named_status-Done namespace name w w' st h c =
      let get =
        wrap (named_error b "failed to fetch backup %s/%s job: %v" namespace name)
          (b.get_job name namespace) in
      let rest : Job b.Quantity → Call W (JobStatus F) =
        λ job. setting b (job_or_node_failed b job) >>= job_status_of b namespace name job in
      let (w₁, job, e₁, h₁) =
        bind_ok get
          (λ job. wrap (node_error b namespace name) (job_node_exists b job) >>= λ _. rest job) w w'
          st h in
      let (w₂, u, e₂, h₂) =
        bind_ok (wrap (node_error b namespace name) (job_node_exists b job)) (λ _. rest job) w₁ w'
          st h₁ in
      let (n, full) =
        job_status_of-Full namespace name job (job_or_node_failed b job w₂).1
          (job_or_node_failed b job w₂).0 w' st h₂ c in
      (
        job,
        w₁,
        (job_or_node_failed b job w₂).0,
        wrap_ok (named_error b "failed to fetch backup %s/%s job: %v" namespace name)
            (b.get_job name namespace) w w₁ job e₁,
        job_or_node_failed-neither job w₂ n,
        full,
      )

  with_id-Done :
      (z : Result (Text × Text)) (id : Text) (w w' : W) (st : JobStatus F)
      → parse_job_id id ≡ z
      → job_status b id w ≡ (w', ok st)
      → st.state ≡ JobState.completed
      → (namespace : Text) × (name : Text) × (parse_job_id id ≡ ok (namespace, name))
        × Done b namespace name w w'
  unfolding job_status with_id
  with_id-Done (ok (namespace, name)) id w w' st e h c = (
    namespace,
    name,
    e,
    named_status-Done namespace name w w' st (rw (e, job_status, with_id) at h) c,
  )
  with_id-Done (err x) id w w' st e h c =
      let h' : bad_id b x w ≡ (w', ok st) = rw (e, job_status, with_id) at h in
      let k =
        zero-uncompleted x.text JobConditionType.unset
          (ap (λ z. elim z.1 [ ok s ↦ s.state | err _ ↦ JobState.failed ]) h' ∙ c) in
      cc

-- The backup driver's JobStatus reports a completed transfer only for an id that names a job which
-- was read and has not failed, whose volume backup was read, reports the progress 100 and names no
-- error. Zero percent is taken to be no 100 percent.
pub job_status-Done :
    {W F : Type 0} (b : BatchServices W F) (id : Text) (w w' : W) (st : JobStatus F)
    → b.is_hundred b.zero_percent ≡ false
    → job_status b id w ≡ (w', ok st)
    → st.state ≡ JobState.completed
    → (namespace : Text) × (name : Text) × (parse_job_id id ≡ ok (namespace, name))
      × Done b namespace name w w'
job_status-Done b id w w' st below h c = with_id-Done b below (parse_job_id id) id w w' st refl h c
