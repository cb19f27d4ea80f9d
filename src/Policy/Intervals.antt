-- ===== src/Policy/Intervals.antt =====
-- The evaluation intervals of api/v1/configurationpolicy_types.go, and `currentlyUsingWatch` of
-- controllers/configurationpolicy_controller.go.
use config_policy_controller.Prelude.{ℕ, String, Bool, ◌||◌, Option, none, some, if◌then◌else◌}
use config_policy_controller.Prelude.Text.{str_eq}
use config_policy_controller.Policy.{EvaluationInterval, ConfigurationPolicy, compliant, state_eq}

-- The results of `parseInterval`; a duration is counted in nanoseconds. `is_never` and `is_watch`
-- are the sentinel errors, `invalid` is any other error.
pub data Interval : Type 0 where
  duration : ℕ → Interval
  is_watch is_never invalid : Interval

-- `time.ParseDuration`, without negative durations: the API server admits no sign.
module _ (parse_duration : String → Option ℕ) where
  unfoldable pub parse_interval : String → Interval
  parse_interval interval =
      if str_eq interval "" || str_eq interval "watch"
      then is_watch
      else if str_eq interval "never"
      then is_never
      else elim (parse_duration interval) [ none ↦ invalid | some d ↦ duration d ]

  unfoldable pub get_compliant_interval : EvaluationInterval → Interval
  unfolding parse_interval
  get_compliant_interval e = parse_interval e.compliant

  unfoldable pub get_noncompliant_interval : EvaluationInterval → Interval
  unfolding parse_interval
  get_noncompliant_interval e = parse_interval e.noncompliant

unfoldable pub is_watch_for_compliant : EvaluationInterval → Bool
is_watch_for_compliant e = str_eq e.compliant "" || str_eq e.compliant "watch"

unfoldable pub is_watch_for_noncompliant : EvaluationInterval → Bool
is_watch_for_noncompliant e = str_eq e.noncompliant "" || str_eq e.noncompliant "watch"

unfoldable pub currently_using_watch : {L : Type 0} → ConfigurationPolicy L → Bool
unfolding is_watch_for_compliant is_watch_for_noncompliant
currently_using_watch plc =
    if state_eq plc.status.compliance_state compliant
    then is_watch_for_compliant plc.spec.evaluation_interval
    else is_watch_for_noncompliant plc.spec.evaluation_interval
