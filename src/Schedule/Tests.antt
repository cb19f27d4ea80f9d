-- ===== src/Schedule/Tests.antt =====
-- Runs of the scheduling decision, and its theorems at concrete policies.
use config_policy_controller.Prelude.{
  ℕ, String, ◌≡◌, refl, ◌*◌, false, Option, none, some, List, [], if◌then◌else◌,
}
use config_policy_controller.Prelude.Text.{str_eq}
use config_policy_controller.Policy.{
  ConfigurationPolicy, ComplianceState, compliant, TemplateStatus,
}
use config_policy_controller.Policy.Intervals.{get_compliant_interval}
use config_policy_controller.Schedule.{
  Environment, second, by_state, when_evaluated, is_stale, recreate_timed_out, uses_selector,
  should_evaluate_policy,
}
use config_policy_controller.Schedule.Decisions.{
  awaited, Obeys, IsSettled, should_evaluate_policy-IsSettled,
}

-- Times and durations are read as a single digit of seconds: "5s", and "9" for a time.
abbrev pub parse_seconds : String → Option ℕ
parse_seconds s = if str_eq s "5s" then some (5 * second) else none

abbrev pub parse_clock : String → Option ℕ
parse_clock s = if str_eq s "t9" then some (9 * second) else none

abbrev pub env_at : ℕ → Environment
env_at time = record {
  last_evaluated_cache = λ uid. some "t9";
  has_update = λ namespace name. false;
  now = time;
  parse_time = parse_clock;
  parse_duration = parse_seconds;
  eval_backoff_seconds = 10;
}

abbrev pub policy_with :
    String → ComplianceState → ℕ → List TemplateStatus → ConfigurationPolicy (Unit {0})
policy_with interval state generation details = record {
  name = "p";
  namespace = "ns";
  uid = "u1";
  generation = generation;
  finalizers = [];
  deletion_timestamp = false;
  spec = record {
    remediation_action = "enforce";
    evaluation_interval = record { compliant = interval; noncompliant = "" };
    prune_object_behavior = "DeleteIfCreated";
    namespace_selector = record { label_selector = none; includes = []; excludes = [] };
  };
  status = record {
    compliance_state = state;
    compliancy_details = details;
    last_evaluated = "t9";
    last_evaluated_generation = 1;
    related_objects = [];
  };
}

waits_for_the_interval :
    should_evaluate_policy (env_at (12 * second)) (policy_with "5s" compliant 1 []) false
    ≡ (false, 2 * second)
unfolding should_evaluate_policy when_evaluated by_state is_stale recreate_timed_out uses_selector
    get_compliant_interval
waits_for_the_interval = refl

settled : IsSettled (env_at (12 * second)) (policy_with "5s" compliant 1 []) (9 * second)
unfolding is_stale recreate_timed_out uses_selector
settled = record {
  synced = refl;
  alive = refl;
  evaluated = refl;
  current = refl;
  recreated = refl;
  parsed = refl;
  selected = refl;
}

should_evaluate_policy-IsSettled_example :
    Obeys
      (env_at (12 * second))
      (9 * second)
      (awaited (env_at (12 * second)) (policy_with "5s" compliant 1 []) compliant)
      (should_evaluate_policy (env_at (12 * second)) (policy_with "5s" compliant 1 []) false)
should_evaluate_policy-IsSettled_example =
    should_evaluate_policy-IsSettled (env_at (12 * second)) (policy_with "5s" compliant 1 [])
      (9 * second) settled

in_step : is_stale (env_at (12 * second)) (policy_with "never" compliant 2 []) ≡ false
unfolding is_stale
in_step = refl

never_again :
    should_evaluate_policy (env_at (12 * second)) (policy_with "never" compliant 1 []) false
    ≡ (false, 0)
unfolding should_evaluate_policy when_evaluated by_state is_stale recreate_timed_out uses_selector
    get_compliant_interval
never_again = refl
