-- ===== src/Drivers/KopiaBackup/Start.antt =====
-- When StartJob of the backup driver makes a job.
use kdmp.Base.{
  Bool, true, false, List, [], ◌∷◌, Text, Error, Result, ok, err, Call, ◌≡◌, ◌⊎◌, inl, inr, refl,
  sym, ap, subst, ◌∙◌, Bool-cases, is_empty, text_eq, codes, is_already_exists, arith, not,
}
use kdmp.Base.Results.{return, wrap, wrap_ok, bind_ok, lift_ok, ◌>>=◌}
use kdmp.Base.Strings.{lookup_text}
use kdmp.Drivers.{apply_options}
use kdmp.Drivers.Name
use kdmp.Drivers.Options.{JobOpts, JobOption, no_opts}
use kdmp.Drivers.KopiaJob.{executor_job}
use kdmp.Drivers.KopiaBackup.{
  job_for, job_for_live_backup, job_for_pods, build_job, create_backup, start_available,
  start_absent, start_job, job_error, validate, get_volume_directory, named_job, claim_pod,
  live_pod, account_for, pods_of_claim, built, create_built, running_for_claim, start_scheduled,
  add_job_labels,
}
use kdmp.Services.{Retry}
use kdmp.Jobs.{namespaced_name}
use kdmp.Jobs.Batch.{BatchServices, Job, Pod, PodSpec, Resources}
use kdmp.Jobs.Config.{kopia_resource_requirements, setting}
use kdmp.Jobs.Accounts.{unless, unless_call}
use kdmp.JobRateLimit.{
  list_error, pvc_selector, pvc_name_key, pvc_uid_key, can_job_be_scheduled,
  is_job_for_pvc_already_running, is_job_already_present,
}

-- The call gives a value, or an error that is accepted, and leaves w'.
abbrev pub Accepted : {W : Type 0} → (Error → Bool) → Call W Unit → W → W → Type 0
Accepted {W = W} accept m w w' =
    (m w ≡ (w', ok tt)) ⊎ ((e : Error) × (m w ≡ (w', err e)) × (accept e ≡ true))

unless_ok :
    {W : Type 0} (accept : Error → Bool) (f : Error → Error) (z : W × Result Unit) (w' : W)
    (u : Unit)
    → ◌≡◌ {A = W × Result Unit} (z.0, unless accept f z.1) (w', ok u)
    → (z ≡ (w', ok tt)) ⊎ ((e : Error) × (z ≡ (w', err e)) × (accept e ≡ true))
unfolding unless
unless_ok accept f (s, ok v) w' u h = inl h
unless_ok accept f (s, err e) w' u h = elim (Bool-cases (accept e)) [
  | inl q ↦ let g : s ≡ w' = ap (λ z. z.0) h in inr (e, ap (λ s. (s, err e)) g, q)
  | inr q ↦ ground arith
]

pub unless_call-Accepted :
    {W : Type 0} (accept : Error → Bool) (f : Error → Error) (m : Call W Unit) (w w' : W) (u : Unit)
    → unless_call accept f m w ≡ (w', ok u)
    → Accepted accept m w w'
unless_call-Accepted accept f m w w' u h = unless_ok accept f (m w) w' u h

module _ {W F : Type 0} (b : BatchServices W F) where
  -- The job that is built carries the name, and the namespace of the options.
  abbrev IsNamed : JobOpts → Text → Job b.Quantity → Type 0
  IsNamed o name job = (job.name ≡ name) × (job.namespace ≡ o.namespace)

  named_job-IsNamed :
      (o : JobOpts) (name : Text) (pod : Call W (PodSpec b.Quantity)) (job : Job b.Quantity)
      (w w' : W)
      → (pod >>= named_job b o name) w ≡ (w', ok job)
      → IsNamed o name job
  named_job-IsNamed o name pod job w w' h =
      let (s, spec, e, g) = bind_ok pod (named_job b o name) w w' job h in
      let p : ok (executor_job b name o.namespace (add_job_labels o.labels) spec) ≡ ok job =
        ap (λ z. z.1) g in
      let q : executor_job b name o.namespace (add_job_labels o.labels) spec ≡ job = cc in
      (sym (ap (λ j. j.name) q), sym (ap (λ j. j.namespace) q))

  job_for_pods-IsNamed :
      (o : JobOpts) (name : Text) (resources : Resources b.Quantity) (pods : List Pod)
      (job : Job b.Quantity) (w w' : W)
      → job_for_pods b o name resources pods w ≡ (w', ok job)
      → IsNamed o name job
  unfolding job_for_pods job_for job_for_live_backup
  job_for_pods-IsNamed o name resources [] job w w' h =
      named_job-IsNamed o name (claim_pod b o name resources) job w w' h
  job_for_pods-IsNamed o name resources (pod ∷ pods) job w w' h =
      elim (Bool-cases (text_eq pod.phase (codes "Pending"))) [
        | inl p ↦ ground arith
        | inr p ↦
            let h' : job_for_live_backup b o name pod resources w ≡ (w', ok job) = rw p at h in
            let (s, dir, e, g) =
              bind_ok (get_volume_directory b o.source_pvc_name o.namespace)
                (λ dir. (live_pod b o name pod resources dir >>= named_job b o name)) w w' job h' in
            named_job-IsNamed o name (live_pod b o name pod resources dir) job s w' g
      ]

  build_job-IsNamed :
      (r : Retry) (o : JobOpts) (name : Text) (job : Job b.Quantity) (w w' : W)
      → build_job b r name o w ≡ (w', ok job)
      → IsNamed o name job
  unfolding build_job
  build_job-IsNamed r o name job w w' h =
      let (w₁, resources, e₁, h₁) =
        bind_ok (kopia_resource_requirements b o.job_config_map o.job_config_map_ns)
          (λ resources.
            account_for b r name o >>= λ _. pods_of_claim b o >>= job_for_pods b o name resources)
          w w' job h in
      let (w₂, u, e₂, h₂) =
        bind_ok (account_for b r name o)
          (λ _. pods_of_claim b o >>= job_for_pods b o name resources) w₁ w' job h₁ in
      let (w₃, pods, e₃, h₃) =
        bind_ok (pods_of_claim b o) (job_for_pods b o name resources) w₂ w' job h₂ in
      job_for_pods-IsNamed o name resources pods job w₃ w' h₃

  -- The job of the options is built and created, or is there when it is created.
  abbrev pub Created : Retry → JobOpts → W → W → Type 0
  Created r o w w' =
      (w₁ : W) × (job : Job b.Quantity) × (build_job b r o.data_export_name o w ≡ (w₁, ok job))
      × Accepted is_already_exists (b.create_job job) w₁ w'

  create_backup-Created :
      (r : Retry) (o : JobOpts) (w w' : W) (id : Text)
      → create_backup b r o w ≡ (w', ok id)
      → (validate o ≡ ok tt)
        × Created r o w w'
        × (id ≡ namespaced_name o.namespace o.data_export_name)
  unfolding create_backup
  create_backup-Created r o w w' id h =
      let (u, e₀, h₀) =
        lift_ok (validate o)
          (λ _. built b r o >>= λ job.
            create_built b o job >>= λ _. return (namespaced_name job.namespace job.name))
          w w' id h in
      let (w₁, job, e₁, h₁) =
        bind_ok (built b r o)
          (λ job. create_built b o job >>= λ _. return (namespaced_name job.namespace job.name)) w
          w' id h₀ in
      let (w₂, u', e₂, h₂) =
        bind_ok (create_built b o job) (λ _. return (namespaced_name job.namespace job.name)) w₁ w'
          id h₁ in
      let built_ok =
        wrap_ok (job_error b "building backup job %s failed: %v" o.data_export_name)
          (build_job b r o.data_export_name o) w w₁ job e₁ in
      let (n, ns) = build_job-IsNamed r o o.data_export_name job w w₁ built_ok in
      let a =
        unless_call-Accepted is_already_exists
          (job_error b "creation of backup job %s failed: %v" o.data_export_name) (b.create_job job)
          w₁ w₂ u' e₂ in
      let q : w₂ ≡ w' = ap (λ z. z.0) h₂ in
      let i : ok (namespaced_name job.namespace job.name) ≡ ok id = ap (λ z. z.1) h₂ in
      let i' : id ≡ namespaced_name job.namespace job.name = cc in
      (
        e₀,
        (w₁, job, built_ok, subst (Accepted is_already_exists (b.create_job job) w₁) q a),
        i' ∙ ap (λ t. namespaced_name t job.name) ns ∙ ap (namespaced_name o.namespace) n,
      )

  -- A new job of the options was made: the list of the jobs of the driver for the claim was empty, the
  -- limit left room, and the options named the backup location.
  abbrev pub Made : Retry → JobOpts → W → W → Type 0
  Made r o w w' =
      (w₁ : W) × (w₂ : W) × (b.list_all_jobs o.namespace
          (pvc_selector (lookup_text pvc_name_key o.labels) (lookup_text pvc_uid_key o.labels)
            Name.kopia_backup)
          w
        ≡ (w₁, ok []))
      × (can_job_be_scheduled b Name.kopia_backup w₁ ≡ (w₂, ok true))
      × (validate o ≡ ok tt)
      × Created r o w₂ w'

  -- The list of the jobs for the claim.
  abbrev claim_jobs : JobOpts → Call W (List (Job b.Quantity))
  claim_jobs o = b.list_all_jobs o.namespace (
      pvc_selector (lookup_text pvc_name_key o.labels) (lookup_text pvc_uid_key o.labels)
        Name.kopia_backup)

  start_scheduled-Made :
      (r : Retry) (o : JobOpts) (available : Bool) (w w' : W) (id : Text)
      → start_scheduled b r o available w ≡ (w', ok id)
      → (available ≡ true) × (create_backup b r o w ≡ (w', ok id))
  unfolding start_scheduled
  start_scheduled-Made r o true w w' id h = (refl, h)
  start_scheduled-Made r o false w w' id h = ground arith

  start_available-Made :
      (r : Retry) (o : JobOpts) (jobs : List (Job b.Quantity)) (w w₁ w' : W) (id : Text)
      → claim_jobs o w ≡ (w₁, ok jobs)
      → start_available b r o (not (is_empty jobs)) w₁ ≡ (w', ok id)
      → Made r o w w' × (id ≡ namespaced_name o.namespace o.data_export_name)
  unfolding start_available
  start_available-Made r o [] w w₁ w' id e h =
      let (w₂, available, g, h₁) =
        bind_ok (can_job_be_scheduled b Name.kopia_backup) (start_scheduled b r o) w₁ w' id h in
      let (t, h₂) = start_scheduled-Made r o available w₂ w' id h₁ in
      let (v, c, i) = create_backup-Created r o w₂ w' id h₂ in
      (
        (
          w₁,
          w₂,
          e,
          subst (λ a. can_job_be_scheduled b Name.kopia_backup w₁ ≡ (w₂, ok a)) t g,
          v,
          c,
        ),
        i,
      )
  start_available-Made r o (j ∷ jobs) w w₁ w' id e h = ground arith

  start_absent-Made :
      (r : Retry) (o : JobOpts) (w w' : W) (id : Text)
      → start_absent b r o false w ≡ (w', ok id)
      → Made r o w w' × (id ≡ namespaced_name o.namespace o.data_export_name)
  unfolding start_absent is_job_for_pvc_already_running
  start_absent-Made r o w w' id h =
      let (w₁, running, e₁, h₁) =
        bind_ok (running_for_claim b o) (start_available b r o) w w' id h in
      let (w₂, jobs, e₂, h₂) =
        bind_ok (wrap list_error (claim_jobs o)) (λ jobs. return (not (is_empty jobs))) w w₁ running
          e₁ in
      let p : w₂ ≡ w₁ = ap (λ z. z.0) h₂ in
      let k : ok (not (is_empty jobs)) ≡ ok running = ap (λ z. z.1) h₂ in
      let k' : running ≡ not (is_empty jobs) = cc in
      start_available-Made r o jobs w w₁ w' id
        (subst (λ s. claim_jobs o w ≡ (s, ok jobs)) p
          (wrap_ok list_error (claim_jobs o) w w₂ jobs e₂))
        (subst (λ x. start_available b r o x w₁ ≡ (w', ok id)) k' h₁)

  start_absent_cases :
      (r : Retry) (o : JobOpts) (present : Bool) (w w' : W) (id : Text)
      → start_absent b r o present w ≡ (w', ok id)
      → (((present ≡ true) × (w' ≡ w)) ⊎ ((present ≡ false) × Made r o w w'))
        × (id ≡ namespaced_name o.namespace o.data_export_name)
  unfolding start_absent
  start_absent_cases r o true w w' id h = (inl (refl, sym (ap (λ z. z.0) h)), ground arith)
  start_absent_cases r o false w w' id h =
      let (m, i) = start_absent-Made r o w w' id h in (inr (refl, m), i)

-- The backup driver's StartJob gives only the namespaced name of the data export of its options, and
-- gives it in two ways. Either GetJob finds a job of that name, and nothing is done after that; or
-- it finds none, no job of the driver is listed for the claim, CanJobBeScheduled says yes, the
-- options name the backup location and its namespace, and the job that was built from the options is
-- created, where one that is there by then is no error.
pub start_job-Made :
    {W F : Type 0} (b : BatchServices W F) (r : Retry) (opts : List JobOption) (w w' : W)
    (id : Text)
    → start_job b r opts w ≡ (w', ok id)
    → (o : JobOpts) × (apply_options opts no_opts ≡ ok o)
      × (let (w₁, present) = is_job_already_present b o.data_export_name o.namespace w in
          ((present ≡ true) × (w' ≡ w₁)) ⊎ ((present ≡ false) × Made b r o w₁ w'))
      × (id ≡ namespaced_name o.namespace o.data_export_name)
unfolding start_job
start_job-Made b r opts w w' id h =
    let (o, e, h₁) =
      lift_ok (apply_options opts no_opts)
        (λ o.
          setting b (is_job_already_present b o.data_export_name o.namespace)
          >>= start_absent b r o)
        w w' id h in
    let (w₁, present) = is_job_already_present b o.data_export_name o.namespace w in
    let (c, i) = start_absent_cases b r o present w₁ w' id h₁ in (o, e, c, i)
