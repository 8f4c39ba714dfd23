-- ===== src/Jobs/State.antt =====
-- The states of a job that are read from its pods and nodes: pkg/drivers/utils/utils.go.
use kdmp.Base.{
  ℕ, Bool, true, false, ◌||◌, List, [], ◌∷◌, Text, Error, errorf, Result, ok, err, Call, format,
  is_empty, text_eq, if◌then◌else◌, Option, none, some,
}
use kdmp.Jobs.{JobCondition, is_job_or_node_failed}
use kdmp.Jobs.Batch.{BatchServices, Job, Pod, ContainerStatus}
use kdmp.Drivers.{JobConditionType}

-- A container that waits or runs.
any_active : List ContainerStatus → Bool
any_active [] = false
any_active (c ∷ cs) = let rest = any_active cs in if c.waiting || c.running then true else rest

-- IsJobPending, after the pods were read.
unfoldable pub pending_pods : Result (List Pod) → Bool
unfolding any_active
pending_pods (err _) = false
pending_pods (ok []) = true
pending_pods (ok (p ∷ _)) =
    if is_empty p.container_statuses then true else any_active p.container_statuses

member : Text → List Text → Bool
member name [] = false
member name (n ∷ ns) = let rest = member name ns in if text_eq n name then true else rest

-- JobNodeExists, after the nodes were read.
unfoldable pub node_exists : Text → Result (List Text) → Result (Unit {0})
unfolding member
node_exists node (err _) = ok tt
node_exists node (ok nodes) =
    if member node nodes
    then ok tt
    else err (errorf (format "node %s does not exist anymore" (node ∷ [])))

-- FetchJobContainerRestartCount, after the pods were read.
unfoldable pub restart_count : Text → Text → Result (List Pod) → Result ℕ
restart_count namespace name (err _) =
    err (errorf (format "cannot determine job state for: %v/%v" (namespace ∷ name ∷ [])))
restart_count namespace name (ok []) = ok 0
restart_count namespace name (ok (p ∷ _)) = elim p.container_statuses [
  | [] ↦ ok 0
  | c ∷ _ ↦ ok c.restart_count
]

-- `if len(job.Status.Conditions) != 0 { jobStatus = job.Status.Conditions[0].Type }`
unfoldable pub first_condition : List JobCondition → JobConditionType
first_condition [] = JobConditionType.unset
first_condition (c ∷ _) = c.type

module _ {W F : Type 0} (b : BatchServices W F) where
  unfoldable pub is_job_pending : Job b.Quantity → W → W × Bool
  is_job_pending job w =
      let (w', r) = b.get_job_pods job.namespace job.name w in (w', pending_pods r)

  unfoldable pub job_node_exists : Job b.Quantity → Call W Unit
  job_node_exists job w =
      if is_empty job.spec.node_name
      then (w, ok tt)
      else (let (w', r) = b.get_nodes w in (w', node_exists job.spec.node_name r))

  unfoldable pub fetch_job_container_restart_count : Job b.Quantity → Call W ℕ
  fetch_job_container_restart_count job w =
      let (w', r) = b.get_job_pods job.namespace job.name w in
      (w', restart_count job.namespace job.name r)

  unfoldable pub ready_error : Result (Unit {0}) → Option Error
  ready_error (ok _) = none
  ready_error (err e) = some e

  -- IsJobOrNodeFailed, which asks IsNodeReady where the job names a node.
  unfoldable pub job_or_node_failed : Job b.Quantity → W → W × (Bool × Bool)
  unfolding ready_error
  job_or_node_failed job w =
      if is_empty job.spec.node_name
      then (w, is_job_or_node_failed [] none job.conditions)
      else (let (w', r) = b.is_node_ready job.spec.node_name w in
          (w', is_job_or_node_failed job.spec.node_name (ready_error r) job.conditions))
