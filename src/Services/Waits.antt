-- ===== src/Services/Waits.antt =====
-- sched-ops' task.DoRetryWithTimeout and apimachinery's wait.ExponentialBackoff.
use kdmp.Base.{Option, some, ◌≡◌, subst, Error, Result, ok, err}

-- What a task returns to DoRetryWithTimeout: an output, or an error with the flag `retry`.
pub data Attempt (A : Type 0) : Type 0 where
  done : A → Attempt A
  again : Error → Attempt A
  give_up : Error → Attempt A

pub record Retry : Type 1 where
  pub do_retry : (S A : Type 0) → (S → S × Attempt A) → S → S × Result A
  -- The polled condition: an error stops, `none` means not yet.
  pub backoff : (S A : Type 0) → (S → S × Result (Option A)) → S → S × Result A

-- How a retried task may come to its result: it runs until it is done or gives up, or the deadline
-- passes before one of the runs.
pub data Retried {S A : Type 0} (task : S → S × Attempt A) : S → S × Result A → Type 0 where
  done_at : (s s' : S) (a : A) → task s ≡ (s', done a) → Retried task s (s', ok a)
  gave_up_at : (s s' : S) (e : Error) → task s ≡ (s', give_up e) → Retried task s (s', err e)
  again_at :
      (s s' : S) (e : Error) (r : S × Result A)
      → task s ≡ (s', again e)
      → Retried task s' r
      → Retried task s r
  timed_out_at : (s : S) (e : Error) → Retried task s (s, err e)

-- The documented behaviour: the result comes about in that way, and a first run that is done
-- gives its output.
pub record RetryLaws (r : Retry) : Type 1 where
  pub is_retried :
      (S A : Type 0) (task : S → S × Attempt A) (s : S) → Retried task s (r.do_retry S A task s)
  pub prompt :
      (S A : Type 0) (task : S → S × Attempt A) (s s' : S) (a : A)
      → task s ≡ (s', done a)
      → r.do_retry S A task s ≡ (s', ok a)

-- The documented behaviour of the poll: an output is one that the condition gave, in the last run.
pub record BackoffLaws (r : Retry) : Type 1 where
  pub last_run :
      (S A : Type 0) (cond : S → S × Result (Option A)) (s s' : S) (a : A)
      → r.backoff S A cond s ≡ (s', ok a)
      → (s₁ : S) × (cond s₁ ≡ (s', ok (some a)))

-- The rule for a retried task: where each run from a state with I that does not end the task keeps
-- I, and a run that is done reaches Q, the result has Q or, with an error, I.
module _ {S A : Type 0} (I : S → Type 0) (Q : S → A → Type 0) where
  abbrev pub AttemptPost : S × Attempt A → Type 0
  AttemptPost (s, done a) = Q s a
  AttemptPost (s, again e) = I s
  AttemptPost (s, give_up e) = I s

  abbrev pub ResultPost : S × Result A → Type 0
  ResultPost (s, ok a) = Q s a
  ResultPost (s, err e) = I s

  pub Retried-rule :
      (task : S → S × Attempt A)
      → ((s : S) → I s → AttemptPost (task s))
      → (s : S) {x : S × Result A} → Retried task s x
      → I s
      → ResultPost x
  Retried-rule task step _ (done_at s s' a e) i = subst AttemptPost e (step s i)
  Retried-rule task step _ (gave_up_at s s' f e) i = subst AttemptPost e (step s i)
  Retried-rule task step _ (again_at s s' f r e t) i =
      Retried-rule task step s' t (subst AttemptPost e (step s i))
  Retried-rule task step _ (timed_out_at s e) i = i
