-- ===== src/Schedule.antt =====
-- `shouldEvaluatePolicy` of controllers/configurationpolicy_controller.go: whether a policy is due,
-- and otherwise how long to wait. Times are nanoseconds since a fixed start. What the function
-- reads beside the policy is the record `Environment`.
pub mod Decisions
pub mod Tests
use config_policy_controller.Prelude.{
  ℕ, zero, String, ◌+◌, ◌-◌, ◌*◌, Bool, true, false, not, ◌&&◌, ◌||◌, Option, none, some, List, any,
  ltb, length, is_some, ◌==◌, if◌then◌else◌,
}
use config_policy_controller.Prelude.Text.{str_eq, contains}
use config_policy_controller.Policy.{
  ConfigurationPolicy, ComplianceState, compliant, noncompliant, unknown_compliancy, terminating,
  pending, state_eq, TemplateStatus, Condition, Target, EvaluationInterval,
}
use config_policy_controller.Policy.Intervals.{
  Interval, duration, is_watch, is_never, invalid, get_compliant_interval,
  get_noncompliant_interval,
}

abbrev pub second : ℕ
second = 1_000_000_000

-- The cache of last evaluations by UID, the selector's `HasUpdate`, the clock, the parsers of Go's
-- `time` package, and the reconciler's `EvalBackoffSeconds`.
pub record Environment : Type 0 where
  pub last_evaluated_cache : String → Option String
  pub has_update : String → String → Bool
  pub now : ℕ
  pub parse_time : String → Option ℕ
  pub parse_duration : String → Option ℕ
  pub eval_backoff_seconds : ℕ

-- The condition that `checkAndUpdateResource` leaves when a recreate timed out.
unfoldable pub recreate_timed_out : List TemplateStatus → Bool
recreate_timed_out details =
    any
      (λ (d : TemplateStatus).
        any
          (λ (c : Condition).
            str_eq c.reason "K8s update template error"
            && contains c.message "timed out waiting for the object to delete during recreate")
          d.conditions)
      details

-- The policy is evaluated unless some time is left.
abbrev pub after : ℕ → Bool × ℕ
after left = if ltb 0 left then (false, left) else (true, 0)

-- The last `switch` and what follows it. `elapsed` is the interval that has to pass.
unfoldable pub by_interval : Environment → ℕ → Interval → Bool × ℕ
by_interval env last_evaluated is_never = (false, 0)
by_interval env last_evaluated is_watch =
    after (last_evaluated + second * env.eval_backoff_seconds - env.now)
by_interval env last_evaluated invalid = (true, 0)
by_interval env last_evaluated (duration interval) = after (last_evaluated + interval - env.now)

-- The `switch` on the compliance state. A state with no case keeps the interval zero.
unfoldable pub by_state : Environment → EvaluationInterval → ℕ → ComplianceState → Bool × ℕ
unfolding by_interval
by_state env e last_evaluated compliant =
    by_interval env last_evaluated (get_compliant_interval env.parse_duration e)
by_state env e last_evaluated noncompliant =
    by_interval env last_evaluated (get_noncompliant_interval env.parse_duration e)
by_state env e last_evaluated unknown_compliancy = (true, 0)
by_state env e last_evaluated terminating = (true, 0)
by_state env e last_evaluated pending = by_interval env last_evaluated (duration 0)

module _ {L : Type 0} where
  unfoldable pub uses_selector : ConfigurationPolicy L → Bool
  uses_selector policy =
      is_some policy.spec.namespace_selector.label_selector
      || not (length policy.spec.namespace_selector.includes == 0)

  -- `status.lastEvaluated` does not yet show the evaluation that the cache knows of.
  unfoldable pub is_stale : Environment → ConfigurationPolicy L → Bool
  is_stale env policy = elim (env.last_evaluated_cache policy.uid) [
    | none ↦ false
    | some cached ↦ not (str_eq cached policy.status.last_evaluated)
  ]

  -- From the parsed `status.lastEvaluated` on.
  unfoldable pub when_evaluated : Environment → ConfigurationPolicy L → Option ℕ → Bool × ℕ
  when_evaluated env policy none = (true, 0)
  when_evaluated env policy (some last_evaluated) =
      if uses_selector policy && env.has_update policy.namespace policy.name
      then (true, 0)
      else by_state env policy.spec.evaluation_interval last_evaluated
          policy.status.compliance_state

  unfoldable pub should_evaluate_policy : Environment → ConfigurationPolicy L → Bool → Bool × ℕ
  should_evaluate_policy env policy cleanup_immediately =
      if cleanup_immediately
      then (not (length policy.finalizers == 0), 0)
      else if is_stale env policy
      then (false, second)
      else if policy.deletion_timestamp
      then (true, 0)
      else if str_eq policy.status.last_evaluated ""
      then (true, 0)
      else if not (policy.status.last_evaluated_generation == policy.generation)
      then (true, 0)
      else if state_eq policy.status.compliance_state noncompliant
          && recreate_timed_out policy.status.compliancy_details
      then (true, 0)
      else when_evaluated env policy (env.parse_time policy.status.last_evaluated)
