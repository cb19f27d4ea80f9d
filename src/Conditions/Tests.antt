-- ===== src/Conditions/Tests.antt =====
-- Runs of the status functions, and their theorems at concrete policies.
use config_policy_controller.Prelude.{
  ◌*◌, String, ◌≡◌, ◌≢◌, refl, Bool, false, some, List, [], ◌∷◌, arith, eq_iff,
}
use config_policy_controller.Policy.{ConfigurationPolicy, compliant, noncompliant, TemplateStatus}
use config_policy_controller.Schedule.{second, should_evaluate_policy, recreate_timed_out}
use config_policy_controller.Schedule.Decisions.{awaited, Obeys}
use config_policy_controller.Schedule.Tests.{env_at, policy_with}
use config_policy_controller.Conditions.{
  state_of, pad_details, new_condition, add_condition_to_status, overall_state, sends_event,
  updated_for,
}
use config_policy_controller.Conditions.Details.{blank, Updates, add_condition_to_status_lem}
use config_policy_controller.Conditions.Overall.{should_evaluate_policy-updated_for}

abbrev ok_entry : TemplateStatus
ok_entry = record { compliance_state = compliant; conditions = [] }

abbrev plc : ConfigurationPolicy (Unit {0})
plc = policy_with "5s" compliant 1 (ok_entry ∷ [])

pads_with_unknown : pad_details 3 2 noncompliant (ok_entry ∷ []) ≡ ok_entry ∷ blank ∷ blank ∷ []
unfolding pad_details
pads_with_unknown = refl

add_condition_to_status_lem_example :
    (details : List TemplateStatus) × (needed : Bool) × (add_condition_to_status plc 2 false "r" "m"
        7
      ≡ some (details, needed))
    × Updates 2
        (state_of false "r").0
        (new_condition plc false "r" "m" 7)
        (ok_entry ∷ [])
        details
        needed
add_condition_to_status_lem_example = add_condition_to_status_lem plc 2 false "r" "m" 7

quiet : sends_event plc false ≡ false
unfolding sends_event
quiet = refl

no_timeout : recreate_timed_out plc.status.compliancy_details ≡ false
unfolding recreate_timed_out
no_timeout = refl

a_time : ◌≢◌ {A = String} "t9" ""
a_time = ground (arith, eq_iff "t9" "")

should_evaluate_policy-updated_for_example :
    Obeys
      (env_at (20 * second))
      (9 * second)
      (awaited (env_at (20 * second)) plc (overall_state plc))
      (should_evaluate_policy (env_at (20 * second)) (updated_for plc "t9") false)
should_evaluate_policy-updated_for_example =
    should_evaluate_policy-updated_for (env_at (20 * second)) plc "t9" (9 * second) a_time refl refl
      refl no_timeout refl
