-- ===== src/JobRateLimit.antt =====
-- The limit on the jobs of a driver: pkg/jobratelimit/jobratelimit.go.
pub mod Count
use kdmp.Base.{
  ℕ, Bool, true, false, not, ◌+◌, ◌-◌, List, [], ◌∷◌, ◌++◌, Text, codes, Error, errorf, Result, ok,
  err, Call, format, text_eq, is_empty, length, if◌then◌else◌,
}
use kdmp.Base.Int.{ℤ, pos, leb_ℤ}
use kdmp.Base.Decimals.{atoi}
use kdmp.Base.Results.{return, wrap, ◌>>=◌, ◌>>◌}
use kdmp.Drivers.Name
use kdmp.Jobs.{is_job_completed}
use kdmp.Jobs.Batch.{BatchServices, Job}
use kdmp.Jobs.Config.{get_config_value}

abbrev pub default_job_limit : ℕ
default_job_limit = 5

abbrev pub driver_name_label : Text
driver_name_label = codes "kdmp.portworx.com/driver-name"

abbrev pub pvc_name_key : Text
pvc_name_key = codes "kdmp.portworx.com/pvc-name"

abbrev pub pvc_uid_key : Text
pvc_uid_key = codes "kdmp.portworx.com/pvc-uid"

unfoldable pub get_job_limit_configmap_key : Text → Result Text
get_job_limit_configmap_key name =
    if text_eq name Name.kopia_backup
    then ok (codes "KDMP_BACKUP_JOB_LIMIT")
    else if text_eq name Name.kopia_restore
    then ok (codes "KDMP_RESTORE_JOB_LIMIT")
    else if text_eq name Name.kopia_delete
    then ok (codes "KDMP_DELETE_JOB_LIMIT")
    else if text_eq name Name.kopia_maintenance
    then ok (codes "KDMP_MAINTENANCE_JOB_LIMIT")
    else err (errorf (format "invalid driver name %v" (name ∷ [])))

abbrev pub driver_selector : Text → Text
driver_selector job_type = driver_name_label ++ (b'=' ∷ job_type)

abbrev pub list_error : Error → Error
list_error e = errorf (format "failed to get job list: %v" (e.text ∷ []))

-- getDefaultJobLimit: the five constants are equal.
unfoldable pub get_default_job_limit : Text → ℕ
get_default_job_limit name = default_job_limit

-- The inner loop of getJobCountByType: the count falls by one for each job that is complete.
unfoldable pub less_completed : {Q : Type 0} → ℕ → List (Job Q) → ℕ
less_completed n [] = n
less_completed n (j ∷ js) = less_completed (if is_job_completed j.conditions then n - 1 else n) js

-- The limit read from a value of the config map.
unfoldable pub limit_of : Text → Text → ℤ
limit_of name value =
    if is_empty value
    then pos (get_default_job_limit name)
    else elim (atoi value) [ ok n ↦ n | err _ ↦ pos (get_default_job_limit name) ]

unfoldable pub pvc_selector : Text → Text → Text → Text
pvc_selector pvc_name pvc_uid job_type =
    driver_selector job_type
    ++ (b',' ∷ ((pvc_name_key ++ (b'=' ∷ pvc_name)) ++ (b',' ∷ (pvc_uid_key ++ (b'=' ∷ pvc_uid)))))

is_found : {A : Type 0} → Result A → Bool
is_found (ok _) = true
is_found (err _) = false

module _ {W F : Type 0} (b : BatchServices W F) where
  -- The loop over the namespaces, from the count so far.
  unfoldable pub count_jobs : Text → ℕ → List Text → Call W ℕ
  count_jobs selector n [] = return n
  count_jobs selector n (ns ∷ nss) = do
    jobs ← wrap list_error (b.list_all_jobs ns selector)
    count_jobs selector (n + less_completed (length jobs) jobs) nss

  -- An error of the list of namespaces is only logged.
  unfoldable pub get_job_count_by_type : Text → Call W ℕ
  get_job_count_by_type job_type w =
      let (w', namespaces) = b.list_namespaces w in
      count_jobs (driver_selector job_type) 0 namespaces w'

  unfoldable pub job_limit_by_type : Text → W → W × ℤ
  job_limit_by_type job_type w = elim (get_job_limit_configmap_key job_type) [
    | err _ ↦ (w, pos default_job_limit)
    | ok key ↦
        (let (w', v) = get_config_value b (codes "kdmp-config") (codes "kube-system") key w in
          (w', limit_of job_type v))
  ]

  unfoldable pub can_job_be_scheduled : Text → Call W Bool
  can_job_be_scheduled job_type = do
    count ← get_job_count_by_type job_type
    λ w.
        (let (w', limit) = job_limit_by_type job_type w in (w', ok (not (leb_ℤ limit (pos count)))))

  unfoldable pub is_job_for_pvc_already_running : Text → Text → Text → Text → Call W Bool
  is_job_for_pvc_already_running pvc_name pvc_namespace pvc_uid job_type = do
    jobs ← wrap list_error (b.list_all_jobs pvc_namespace (pvc_selector pvc_name pvc_uid job_type))
    return (not (is_empty jobs))

  unfoldable pub is_job_already_present : Text → Text → W → W × Bool
  unfolding is_found
  is_job_already_present name namespace w =
      let (w', r) = b.get_job name namespace w in (w', is_found r)
