-- ===== src/Drivers/ResticRestore/Stop.antt =====
-- DeleteJob at an id that StartJob of the driver of restic restores gave.
use kdmp.Base.{is_not_found, List, Text, Result, ok, err, Call, ◌≡◌, refl, sym, ap, ◌∙◌}
use kdmp.Base.Results.{raise, bind_ok}
use kdmp.Drivers.{apply_options}
use kdmp.Drivers.Options.{JobOpts, JobOption, no_opts}
use kdmp.Drivers.KopiaJob.{with_id}
use kdmp.Drivers.ResticJob.{delete_job, delete_restic, same_error}
use kdmp.Drivers.ResticRestore.{to_job_name, start_job}
use kdmp.Drivers.ResticRestore.Start.{start_job-Prepared}
use kdmp.Services.{Retry}
use kdmp.Jobs.{namespaced_name}
use kdmp.Jobs.Batch.{BatchServices}
use kdmp.Drivers.KopiaBackup.Start.{Accepted, unless_call-Accepted}
use kdmp.Jobs.Accounts.{clean_service_account, unless_call}
use kdmp.Jobs.Laws.{Free, parse_job_id-namespaced_name}

delete_named :
    {W F : Type 0} (b : BatchServices W F) (namespace name : Text) (w : W)
    → Free b'/' namespace
    → delete_job b (namespaced_name namespace name) w ≡ delete_restic b namespace name w
unfolding delete_job with_id
delete_named {W = W} b namespace name w f =
    ap
      (λ (z : Result (Text × Text)).
        (elim z as (λ _. Call W (Unit {0})) [ ok (ns, n) ↦ delete_restic b ns n | err e ↦ raise e ])
          w)
      ((parse_job_id-namespaced_name (namespaced_name namespace name) namespace name).1 (refl, f))

module _ {W F : Type 0} (b : BatchServices W F) (namespace name : Text) where
  -- The call succeeded, or reported that there is no such object.
  abbrev pub Gone : Call W (Unit {0}) → W → W → Type 0
  Gone m w w' = Accepted is_not_found m w w'

  -- The secret, the three objects of the service account, and the job of the name are gone, in this
  -- order.
  abbrev pub AllGone : W → W → Type 0
  AllGone w w' =
      (w₁ : W) × (w₂ : W) × (w₃ : W) × (w₄ : W) × Gone (b.delete_secret name namespace) w w₁
      × Gone (b.delete_role name namespace) w₁ w₂
      × Gone (b.delete_role_binding name namespace) w₂ w₃
      × Gone (b.delete_service_account name namespace) w₃ w₄
      × Gone (b.delete_job name namespace) w₄ w'

  delete_restic-AllGone : (w w' : W) → delete_restic b namespace name w ≡ (w', ok tt) → AllGone w w'
  unfolding delete_restic clean_service_account
  delete_restic-AllGone w w' h =
      let secret = b.delete_secret name namespace in
      let role = b.delete_role name namespace in
      let binding = b.delete_role_binding name namespace in
      let account = b.delete_service_account name namespace in
      let (w₁, u₁, e₁, h₁) = bind_ok (unless_call is_not_found same_error secret) _ w w' tt h in
      let (w₄, u₄, e₄, h₄) = bind_ok (clean_service_account b name namespace) _ w₁ w' tt h₁ in
      let (w₂, u₂, e₂, h₂) = bind_ok (unless_call is_not_found _ role) _ w₁ w₄ tt e₄ in
      let (w₃, u₃, e₃, h₃) = bind_ok (unless_call is_not_found _ binding) _ w₂ w₄ tt h₂ in
      (
        w₁,
        w₂,
        w₃,
        w₄,
        unless_call-Accepted is_not_found same_error secret w w₁ u₁ e₁,
        unless_call-Accepted is_not_found _ role w₁ w₂ u₂ e₂,
        unless_call-Accepted is_not_found _ binding w₂ w₃ u₃ e₃,
        unless_call-Accepted is_not_found _ account w₃ w₄ tt h₃,
        unless_call-Accepted is_not_found same_error (b.delete_job name namespace) w₄ w' tt h₄,
      )

-- Where DeleteJob ends without an error, for an id that the restore driver's StartJob gave for options
-- whose namespace holds no slash, the secret, the role, its binding, the service account and the job
-- that are named after the destination claim were each deleted or reported missing, in this order.
pub delete_job-start_job :
    {W F : Type 0} (b : BatchServices W F) (r : Retry) (opts : List JobOption) (o : JobOpts)
    (w w' v v' : W) (id : Text)
    → apply_options opts no_opts ≡ ok o
    → Free b'/' o.namespace
    → start_job b r opts w ≡ (w', ok id)
    → delete_job b id v ≡ (v', ok tt)
    → AllGone b o.namespace (to_job_name o.destination_pvc_name) v v'
delete_job-start_job b r opts o w w' v v' id p f h g =
    let (o', vb, w₁, p', q, m, n, i) = start_job-Prepared b r opts w w' id h in
    let e : ok o' ≡ ok o = sym p' ∙ p in
    let k : o' ≡ o = cc in
    let named =
      i
      ∙ ap (λ (z : JobOpts). namespaced_name z.namespace (to_job_name z.destination_pvc_name)) k in
    delete_restic-AllGone b o.namespace (to_job_name o.destination_pvc_name) v v' (
      sym (delete_named b o.namespace (to_job_name o.destination_pvc_name) v f)
      ∙ ap (λ t. delete_job b t v) (sym named)
      ∙ g)
