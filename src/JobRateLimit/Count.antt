-- ===== src/JobRateLimit/Count.antt =====
-- The count of the jobs against the limit.
use kdmp.Base.{
  ℕ, Bool, not, ◌+◌, ◌-◌, ◌≤◌, List, [], ◌∷◌, Text, ok, ◌≡◌, Bool-cases, inl, inr, refl, ◌∙◌, arith,
  length, if◌then◌else◌,
}
use kdmp.Base.Results.{wrap, wrap_ok, bind_ok}
use kdmp.Base.Int.{pos, leb_ℤ}
use kdmp.Jobs.{is_job_completed}
use kdmp.Jobs.Batch.{BatchServices, Job}
use kdmp.JobRateLimit.{
  list_error, less_completed, count_jobs, get_job_count_by_type, driver_selector,
  can_job_be_scheduled, job_limit_by_type,
}

-- The jobs that are not complete.
abbrev pub unfinished : {Q : Type 0} → List (Job Q) → ℕ
unfinished [] = 0
unfinished (j ∷ js) = (if is_job_completed j.conditions then 0 else 1) + unfinished js

unfinished-le-length : {Q : Type 0} (js : List (Job Q)) → unfinished js ≤ length js
unfinished-le-length [] = omega arith
unfinished-le-length (j ∷ js) = ground (arith, unfinished-le-length js)

less_completed_from :
    {Q : Type 0} (n m : ℕ) (js : List (Job Q))
    → m ≡ n + length js
    → less_completed m js ≡ n + unfinished js
unfolding less_completed
less_completed_from n m [] e = omega arith
less_completed_from n m (j ∷ js) e = elim (Bool-cases (is_job_completed j.conditions)) [
  | inl h ↦ rw h (less_completed_from n (m - 1) js (omega arith) ∙ omega arith)
  | inr h ↦ rw h (less_completed_from (n + 1) m js (omega arith) ∙ omega arith)
]

less_completed-unfinished :
    {Q : Type 0} (js : List (Job Q)) → less_completed (length js) js ≡ unfinished js
less_completed-unfinished js = less_completed_from 0 (length js) js (omega arith) ∙ omega arith

module _ {W F : Type 0} (b : BatchServices W F) where
  -- The namespaces are listed one after the other, each list is given, and n of the jobs on them are
  -- not complete.
  abbrev pub Listed : Text → List Text → W → W → ℕ → Type 0
  Listed selector [] w w' n = (w' ≡ w) × (n ≡ 0)
  Listed selector (ns ∷ nss) w w' n =
      (w₁ : W) × (jobs : List (Job b.Quantity)) × (m : ℕ) × (b.list_all_jobs ns selector w
        ≡ (w₁, ok jobs))
      × Listed selector nss w₁ w' m
      × (n ≡ unfinished jobs + m)

  count_jobs-Listed :
      (selector : Text) (n c : ℕ) (nss : List Text) (w w' : W)
      → count_jobs b selector n nss w ≡ (w', ok c)
      → (m : ℕ) × Listed selector nss w w' m × (c ≡ n + m)
  unfolding count_jobs
  count_jobs-Listed selector n c [] w w' h = (0, (ground arith, refl), ground arith)
  count_jobs-Listed selector n c (ns ∷ nss) w w' h =
      let (w₁, jobs, e, g) =
        bind_ok (wrap list_error (b.list_all_jobs ns selector))
          (λ jobs. count_jobs b selector (n + less_completed (length jobs) jobs) nss) w w' c h in
      let (m, l, q) =
        count_jobs-Listed selector (n + less_completed (length jobs) jobs) c nss w₁ w' g in
      (
        unfinished jobs + m,
        (w₁, jobs, m, wrap_ok list_error (b.list_all_jobs ns selector) w w₁ jobs e, l, refl),
        q ∙ omega (arith, less_completed-unfinished jobs),
      )

-- CanJobBeScheduled gives an answer only after the jobs of the driver were listed in each namespace
-- of the list, and the answer is yes exactly where fewer of them than the limit are not complete.
pub can_job_be_scheduled-Listed :
    {W F : Type 0} (b : BatchServices W F) (job_type : Text) (w w' : W) (answer : Bool)
    → can_job_be_scheduled b job_type w ≡ (w', ok answer)
    → let (w₁, namespaces) = b.list_namespaces w in
      (w₂ : W) × (count : ℕ) × Listed b (driver_selector job_type) namespaces w₁ w₂ count
      × (w' ≡ (job_limit_by_type b job_type w₂).0)
      × (answer ≡ not (leb_ℤ (job_limit_by_type b job_type w₂).1 (pos count)))
unfolding can_job_be_scheduled get_job_count_by_type
can_job_be_scheduled-Listed b job_type w w' answer h =
    let (w₂, count, e, g) =
      bind_ok (get_job_count_by_type b job_type)
        (λ count w.
          (let (w', limit) = job_limit_by_type b job_type w in
            (w', ok (not (leb_ℤ limit (pos count))))))
        w w' answer h in
    let (m, l, q) =
      count_jobs-Listed b (driver_selector job_type) 0 count (b.list_namespaces w).1
        (b.list_namespaces w).0 w₂ e in
    (w₂, m, l, ground arith, ground arith)
