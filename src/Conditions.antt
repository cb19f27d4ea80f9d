-- ===== src/Conditions.antt =====
-- `addConditionToStatus` of controllers/configurationpolicy_controller.go, and the overall
-- compliance that `addForUpdate` derives from the details.
pub mod Details
pub mod Overall
pub mod Tests
use config_policy_controller.Prelude.{
  ℕ, zero, suc, String, ◌+◌, ◌-◌, Bool, true, false, not, ◌&&◌, ◌||◌, Option, none, some, List, [],
  ◌∷◌, ◌++◌, any, get_elem?, set, last?, length, ◌==◌, leb, if◌then◌else◌,
}
use config_policy_controller.Prelude.Text.{str_eq, ◌<>◌}
use config_policy_controller.Policy.{
  ConfigurationPolicy, ComplianceState, compliant, noncompliant, unknown_compliancy, terminating,
  state_eq, TemplateStatus, Condition, EvaluationInterval,
}

abbrev pub reason_cleanup_error : String
reason_cleanup_error = "Error cleaning up child objects"

abbrev pub condition_true : String
condition_true = "True"

-- The compliance state and the condition type for a result.
unfoldable pub state_of : Bool → String → ComplianceState × String
state_of is_compliant reason =
    if str_eq reason reason_cleanup_error
    then (terminating, "violation")
    else if is_compliant
    then (compliant, "notification")
    else (noncompliant, "violation")

-- What is said when the policy will not be evaluated again.
unfoldable pub with_never_note : EvaluationInterval → Bool → String → String
with_never_note e is_compliant message =
    if is_compliant && str_eq e.compliant "never"
    then message
      <> (". "
          <> ("This policy will not be evaluated again due to spec.evaluationInterval.compliant being set to \"never\""
              <> "."))
    else if not is_compliant && str_eq e.noncompliant "never"
    then message
      <> (". "
          <> ("This policy will not be evaluated again due to spec.evaluationInterval.noncompliant being set to \"never\""
              <> "."))
    else message

-- One round of the loop that adds details for templates that have none: its test on the length is
-- `len - 1 < index`, and `index == len - 2` is `index + 2 = len` there.
unfoldable pub pad_state : ℕ → ComplianceState → List TemplateStatus → ComplianceState
pad_state index state details = if index + 2 == length details then state else unknown_compliancy

-- The loop, on fuel; `index + 1` rounds are enough.
unfoldable pub pad_details : ℕ → ℕ → ComplianceState → List TemplateStatus → List TemplateStatus
unfolding pad_state
pad_details zero index state details = details
pad_details (suc fuel) index state details =
    let padded = pad_details fuel index state (
      details
      ++ record { compliance_state = pad_state index state details; conditions = [] } ∷ []) in
    if leb (length details) index then padded else details

unfoldable pub same_condition : Condition → Condition → Bool
same_condition old new =
    str_eq old.status new.status
    && (str_eq old.reason new.reason
        && (str_eq old.message new.message && str_eq old.kind new.kind))

-- The entry of the template: its state is set, and the new condition is put in place of the last
-- one if it says something new.
unfoldable pub place_condition :
    ComplianceState → Condition → TemplateStatus → TemplateStatus × Bool
unfolding same_condition
place_condition state new detail =
    let changed = not (state_eq detail.compliance_state state) in
    elim (last? detail.conditions) [
      | none ↦ (record { compliance_state = state; conditions = new ∷ [] }, true)
      | some old ↦
          if same_condition old new
          then (record detail { compliance_state = state }, changed)
          else (
            record {
              compliance_state = state;
              conditions = set detail.conditions (length detail.conditions - 1) new;
            },
            true,
          )
    ]

-- `None` is the access to an index out of range, a panic.
unfoldable pub place_at :
    ℕ → ComplianceState → Condition → List TemplateStatus → Option (List TemplateStatus × Bool)
place_at index state new details = elim (get_elem? details index) [
  | none ↦ none
  | some detail ↦
      some (
        set details index (place_condition state new detail).0,
        (place_condition state new detail).1,
      )
]

module _ {L : Type 0} where
  unfoldable pub new_condition : ConfigurationPolicy L → Bool → String → String → ℕ → Condition
  unfolding state_of with_never_note
  new_condition plc is_compliant reason message now = record {
    kind = (state_of is_compliant reason).1;
    status = condition_true;
    last_transition_time = now;
    reason = reason;
    message = with_never_note plc.spec.evaluation_interval is_compliant message;
  }

  -- For an index from 0 on. The result has the new details and `updateNeeded`.
  unfoldable pub add_condition_to_status :
      ConfigurationPolicy L → ℕ → Bool → String → String → ℕ → Option (List TemplateStatus × Bool)
  unfolding state_of pad_details place_at
  add_condition_to_status plc index is_compliant reason message now =
      let state = (state_of is_compliant reason).0 in
      place_at index state (new_condition plc is_compliant reason message now)
        (pad_details (index + 1) index state plc.status.compliancy_details)

abbrev pub first_only : List TemplateStatus → List TemplateStatus
first_only [] = []
first_only (d ∷ ds) = d ∷ []

module _ {L : Type 0} where
  -- For the index -1, which stands for index 0 and clears the entries behind it.
  unfoldable pub add_condition_and_clear :
      ConfigurationPolicy L → Bool → String → String → ℕ → Option (List TemplateStatus × Bool)
  unfolding add_condition_to_status
  add_condition_and_clear plc is_compliant reason message now =
      elim (add_condition_to_status plc 0 is_compliant reason message now) [
        | none ↦ none
        | some (details, needed) ↦ some (first_only details, needed)
      ]

  -- The overall state that `addForUpdate` sets.
  unfoldable pub overall_state : ConfigurationPolicy L → ComplianceState
  overall_state policy =
      if policy.deletion_timestamp
      then terminating
      else if length policy.status.compliancy_details == 0
      then unknown_compliancy
      else if any (λ (d : TemplateStatus). state_eq d.compliance_state noncompliant)
          policy.status.compliancy_details
      then noncompliant
      else compliant

  -- Whether `addForUpdate` sends an event, given what the caller asks for.
  unfoldable pub sends_event : ConfigurationPolicy L → Bool → Bool
  unfolding overall_state
  sends_event policy send_event =
      send_event
      || (not (state_eq policy.status.compliance_state (overall_state policy))
          || not (policy.status.last_evaluated_generation == policy.generation))

  -- The policy as `addForUpdate` hands it to `updatePolicyStatus`; `now` is the time as RFC 3339.
  unfoldable pub updated_for : ConfigurationPolicy L → String → ConfigurationPolicy L
  unfolding overall_state
  updated_for policy now = record policy {
    status = record (policy.status) {
      compliance_state = overall_state policy;
      last_evaluated = now;
      last_evaluated_generation = policy.generation;
    };
  }
