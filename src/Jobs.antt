-- ===== src/Jobs.antt =====
-- Job identifiers and job states: pkg/drivers/utils/utils.go.
pub mod Laws
pub mod Batch
pub mod State
pub mod Config
pub mod Accounts
pub mod Labels
use kdmp.Base.{
  ◌++◌, Bool, true, false, ◌&&◌, Option, none, some, List, [], ◌∷◌, Text, Error, errorf, Result, ok,
  err, format, if◌then◌else◌,
}
use kdmp.Base.Strings.{split_once}
use kdmp.Drivers.{JobState, JobStatus, JobConditionType}

-- NamespacedName.
unfoldable pub namespaced_name : Text → Text → Text
namespaced_name namespace name = namespace ++ (b'/' ∷ name)

parsed : Text × Option Text → Result (Text × Text)
parsed (namespace, some name) = ok (namespace, name)
parsed (_, none) = err (errorf (format "invalid job id" []))

-- ParseJobID: what stands before the first slash, and what stands after it.
unfoldable pub parse_job_id : Text → Result (Text × Text)
unfolding parsed
parse_job_id id = parsed (split_once b'/' id)

-- batchv1.JobCondition, with status == True as a flag.
pub record JobCondition : Type 0 where
  pub type : JobConditionType
  pub is_true : Bool

is_complete_type : JobConditionType → Bool
is_complete_type JobConditionType.complete = true
is_complete_type _ = false

is_failed_type : JobConditionType → Bool
is_failed_type JobConditionType.failed = true
is_failed_type _ = false

-- IsJobCompleted, over the job's conditions.
unfoldable pub is_job_completed : List JobCondition → Bool
unfolding is_complete_type
is_job_completed [] = false
is_job_completed (c ∷ cs) =
    let rest = is_job_completed cs in if is_complete_type c.type && c.is_true then true else rest

-- IsJobFailed.
unfoldable pub is_job_failed : List JobCondition → Bool
unfolding is_failed_type
is_job_failed [] = false
is_job_failed (c ∷ cs) =
    let rest = is_job_failed cs in if is_failed_type c.type && c.is_true then true else rest

-- IsJobOrNodeFailed: the node's name, the answer of IsNodeReady, and the job's conditions.
unfoldable pub is_job_or_node_failed : Text → Option Error → List JobCondition → Bool × Bool
is_job_or_node_failed [] _ cs = (is_job_failed cs, false)
is_job_or_node_failed (_ ∷ _) (some _) cs = (false, true)
is_job_or_node_failed (_ ∷ _) none cs = (is_job_failed cs, false)

-- ToJobStatus. `completed` is IsTransferCompleted, that a percentage equals 100.
module _ {F : Type 0} (completed : F → Bool) (zero_percents : F) where
  unfoldable pub to_job_status : F → Text → JobConditionType → JobStatus F
  to_job_status progress (c ∷ msg) status = record {
    state = JobState.failed;
    reason = c ∷ msg;
    status = status;
    progress_percents = zero_percents;
  }
  to_job_status progress [] status = record {
    state = if completed progress then JobState.completed else JobState.in_progress;
    reason = [];
    status = status;
    progress_percents = progress;
  }
