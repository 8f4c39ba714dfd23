-- ===== src/Tests/Batch/Restic.antt =====
-- The theorem on the driver of restic restores at one input.
use kdmp.Base.{List, [], ◌∷◌, Text, codes, ok, ◌≡◌, refl, arith}
use kdmp.Api.{VolumeBackup}
use kdmp.Drivers.{apply_options}
use kdmp.Drivers.Options.{JobOpts, JobOption, no_opts}
use kdmp.Drivers.ResticJob
use kdmp.Drivers.ResticRestore
use kdmp.Drivers.ResticRestore.Start.{Prepared, start_job-Prepared}
use kdmp.Drivers.ResticRestore.Stop.{AllGone, delete_job-start_job}
use kdmp.Jobs.{namespaced_name}
use kdmp.Jobs.Batch.{Job}
use kdmp.Tests.Batch.{cluster}
use kdmp.Tests.Services.{twice}

-- A restore from a volume backup into the claim copy.
abbrev restore_opts : JobOpts
restore_opts = record no_opts {
  namespace = codes "app";
  source_pvc_name = codes "db";
  destination_pvc_name = codes "copy";
  volume_backup_name = codes "export-1";
  volume_backup_namespace = codes "app";
}

set_restore : JobOption
set_restore o = ok restore_opts

abbrev after : List (Job Text)
after = (ResticRestore.start_job cluster twice (set_restore ∷ []) []).0

restore_id :
    ResticRestore.start_job cluster twice (set_restore ∷ []) []
    ≡ (after, ok (codes "app/resticrestore-copy"))
unfolding ResticRestore.start_job kdmp.Drivers.apply_options set_restore ResticJob.create_password
    kdmp.Jobs.Config.restic_resource_requirements kdmp.Jobs.Config.to_resource_requirements
    kdmp.Jobs.Config.or_default kdmp.Jobs.Accounts.setup_service_account kdmp.Jobs.Accounts.unless
    kdmp.Tests.Services.next kdmp.Jobs.Accounts.create_account kdmp.Jobs.Accounts.token_task
    kdmp.Jobs.Accounts.mark_token namespaced_name
restore_id = refl

start_job-Prepared_example :
    (o : JobOpts) × (vb : VolumeBackup kdmp.Base.ℕ) × (w₁ : List (Job Text)) × (apply_options
        (set_restore ∷ [])
        no_opts
      ≡ ok o)
    × (ResticRestore.validate o ≡ ok tt)
    × (cluster.get_volume_backup o.volume_backup_name o.volume_backup_namespace [] ≡ (w₁, ok vb))
    × Prepared cluster twice o vb w₁ after
    × (codes "app/resticrestore-copy"
        ≡ namespaced_name o.namespace (ResticRestore.to_job_name o.destination_pvc_name))
start_job-Prepared_example =
    start_job-Prepared cluster twice (set_restore ∷ []) [] after (codes "app/resticrestore-copy")
      restore_id

abbrev left : List (Job Text)
left = (ResticJob.delete_job cluster (codes "app/resticrestore-copy") after).0

restore_deleted :
    ResticJob.delete_job cluster (codes "app/resticrestore-copy") after ≡ (left, ok tt)
unfolding ResticJob.delete_job ResticJob.delete_restic kdmp.Drivers.KopiaJob.with_id
    kdmp.Jobs.parse_job_id kdmp.Base.Strings.split_once kdmp.Jobs.Accounts.clean_service_account
    kdmp.Jobs.Accounts.unless
restore_deleted = refl

delete_job-start_job_example :
    AllGone cluster (codes "app") (ResticRestore.to_job_name (codes "copy")) after left
unfolding kdmp.Drivers.apply_options set_restore
delete_job-start_job_example =
    delete_job-start_job cluster twice (set_restore ∷ []) restore_opts [] after after left
      (codes "app/resticrestore-copy") refl (ground arith) restore_id restore_deleted
