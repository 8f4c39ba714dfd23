-- ===== src/Executor/Repositories/Policy.antt =====
-- The global policy of a new repository is not waited for.
use kdmp.Base.{none, codes, ok, ◌≡◌}
use kdmp.Services.{Retry, RetryLaws, done}
use kdmp.Executor.{ExecutorServices, Floats, Flags}
use kdmp.Executor.Outcomes.{returned}
use kdmp.Executor.Repositories.{set_global_policy, add_policy_setting, policy_verdict}
use kdmp.Kopia.{Command, set_policy_cmd}
use kdmp.Kopia.Build.{set_global_policy_command}
use kdmp.Kopia.Executors.{started, policy_status}
use kdmp.Kopia.Runs.{new_set_global_policy_executor, run, status_task, settled, observe}
use kdmp.Kopia.Runs.Waiting.{retried-done}

module _ {W F : Type 0} (x : ExecutorServices W F) (floats : Floats F) (r : Retry)
    (flags : Flags) where
  first_look :
      (w₁ w₂ : W) (c : Command)
      → x.look w₁ ≡ (w₂, none)
      → status_task x r
          (new_set_global_policy_executor x floats c)
          (policy_verdict x floats r flags (codes "global policy command status not available"))
          (started, w₁)
        ≡ ((started, w₂), done tt)
  unfolding status_task observe settled policy_verdict policy_status
  first_look w₁ w₂ c q = rw q

  -- Where the policy's command starts, and its process is still running at the first look at it,
  -- setGlobalPolicy returns without an error then and there.
  pub set_global_policy-running :
      RetryLaws r
      → (w w₁ w₂ : W)
      → x.start (set_policy_cmd x.environ (add_policy_setting set_global_policy_command)) w
        ≡ (w₁, ok tt)
      → x.look w₁ ≡ (w₂, none)
      → set_global_policy x floats r flags w ≡ (w₂, returned tt)
  unfolding set_global_policy run
  set_global_policy-running laws w w₁ w₂ p q =
      let e =
        new_set_global_policy_executor x floats (add_policy_setting set_global_policy_command) in
      let verdict =
        policy_verdict x floats r flags (codes "global policy command status not available") in
      rw p (
        retried-done x r e verdict laws started started w₁ w₂
          (first_look w₁ w₂ (add_policy_setting set_global_policy_command) q))
