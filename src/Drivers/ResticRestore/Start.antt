-- ===== src/Drivers/ResticRestore/Start.antt =====
-- What StartJob of the driver of restic restores has made when it gives an id.
use kdmp.Base.{
  [], List, Text, Result, ok, err, ◌≡◌, sym, ap, subst, ◌∙◌, is_already_exists, errorf, format, ◌∷◌,
}
use kdmp.Base.Results.{bind_ok, lift_ok}
use kdmp.Api.{VolumeBackup}
use kdmp.Drivers.{apply_options}
use kdmp.Drivers.Options.{JobOpts, JobOption, no_opts}
use kdmp.Drivers.KopiaBackup.Start.{Accepted, unless_call-Accepted}
use kdmp.Drivers.ResticJob.{create_password, password_secret, same_error, role_for}
use kdmp.Drivers.ResticRestore.{to_job_name, job_for, start_restore, start_job, validate}
use kdmp.Services.{Retry}
use kdmp.Jobs.{namespaced_name}
use kdmp.Jobs.Batch.{BatchServices, Job}
use kdmp.Jobs.Config.{restic_resource_requirements}
use kdmp.Jobs.Accounts.{setup_service_account, unless_call}

module _ {W F : Type 0} (b : BatchServices W F) (r : Retry) (o : JobOpts)
    (vb : VolumeBackup F) where
  abbrev secret_name : Text
  secret_name = to_job_name o.source_pvc_name

  -- The id of a job that was built.
  abbrev job_id : Result (Job b.Quantity) → Text
  job_id (ok job) = namespaced_name job.namespace job.name
  job_id (err e) = []

  -- The secret, named after the source claim, and the job, named after the destination, were created,
  -- or there were such.
  abbrev pub Prepared : W → W → Type 0
  Prepared w w' =
      (w₁ : W) × (w₂ : W) × (job : Job b.Quantity) × Accepted is_already_exists
        (b.create_secret (password_secret secret_name o.namespace)) w w₁
      × (job_for b r o vb secret_name w₁ ≡ (w₂, ok job))
      × Accepted is_already_exists (b.create_job job) w₂ w'

  job_for-named :
      (w w' : W) (job : Job b.Quantity)
      → job_for b r o vb secret_name w ≡ (w', ok job)
      → namespaced_name job.namespace job.name
        ≡ namespaced_name o.namespace (to_job_name o.destination_pvc_name)
  unfolding job_for
  job_for-named w w' job h =
      let (w₁, resources, e₁, h₁) = bind_ok (restic_resource_requirements b) _ w w' job h in
      let (w₂, u, e₂, h₂) =
        bind_ok
          (setup_service_account b r (to_job_name o.destination_pvc_name) o.namespace role_for) _ w₁
          w' job h₁ in
      sym (ap (λ z. job_id z.1) h₂)

  start_restore-Prepared :
      (w w' : W) (id : Text)
      → start_restore b r o vb w ≡ (w', ok id)
      → Prepared w w' × (id ≡ namespaced_name o.namespace (to_job_name o.destination_pvc_name))
  unfolding start_restore create_password
  start_restore-Prepared w w' id h =
      let (w₁, u, e₁, h₁) =
        bind_ok
          (create_password b "create a secret with a restic password: %s" secret_name o.namespace) _
          w w' id h in
      let (w₂, job, e₂, h₂) = bind_ok (job_for b r o vb secret_name) _ w₁ w' id h₁ in
      let (w₃, v, e₃, h₃) =
        bind_ok (unless_call is_already_exists same_error (b.create_job job)) _ w₂ w' id h₂ in
      let p : w₃ ≡ w' = ap (λ z. z.0) h₃ in
      let i : ok (namespaced_name job.namespace job.name) ≡ ok id = ap (λ z. z.1) h₃ in
      let i' : id ≡ namespaced_name job.namespace job.name = cc in
      (
        (
          w₁,
          w₂,
          job,
          unless_call-Accepted is_already_exists
              (λ e. errorf (format "create a secret with a restic password: %s" (e.text ∷ [])))
              (b.create_secret (password_secret secret_name o.namespace)) w w₁ u e₁,
          e₂,
          subst (Accepted is_already_exists (b.create_job job) w₂) p
              (unless_call-Accepted is_already_exists same_error (b.create_job job) w₂ w₃ v e₃),
        ),
        i' ∙ job_for-named w₁ w₂ job e₂,
      )

-- Where the restore driver's StartJob gives an id, the volume backup of its options was read, a
-- secret was created that is named after the source claim, and then the job that was built from the
-- options and the volume backup, where what is there by then is no error; the id is that of a job named
-- after the destination claim.
pub start_job-Prepared :
    {W F : Type 0} (b : BatchServices W F) (r : Retry) (opts : List JobOption) (w w' : W)
    (id : Text)
    → start_job b r opts w ≡ (w', ok id)
    → (o : JobOpts) × (vb : VolumeBackup F) × (w₁ : W) × (apply_options opts no_opts ≡ ok o)
      × (validate o ≡ ok tt)
      × (b.get_volume_backup o.volume_backup_name o.volume_backup_namespace w ≡ (w₁, ok vb))
      × Prepared b r o vb w₁ w'
      × (id ≡ namespaced_name o.namespace (to_job_name o.destination_pvc_name))
unfolding start_job
start_job-Prepared b r opts w w' id h =
    let (o, p, h₁) = lift_ok (apply_options opts no_opts) _ w w' id h in
    let (u, v, h₂) = lift_ok (validate o) _ w w' id h₁ in
    let (w₁, vb, q, h₃) =
      bind_ok (b.get_volume_backup o.volume_backup_name o.volume_backup_namespace) _ w w' id h₂ in
    let (m, i) = start_restore-Prepared b r o vb w₁ w' id h₃ in (o, vb, w₁, p, v, q, m, i)
