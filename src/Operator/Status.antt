-- ===== src/Operator/Status.antt =====
-- The status of an operator policy: `updateStatus`, `updateComplianceCondition`,
-- `calculateComplianceCondition`, `conditionChanged` and `emitComplianceEvent` of
-- controllers/operatorpolicy_status.go. The time is an argument. Where the code ranges over a map of
-- positions, the model goes in the order of the positions.
use config_policy_controller.Prelude.{
  ℕ, String, Bool, true, false, not, ◌&&◌, ◌||◌, Option, none, some, List, [], ◌∷◌, ◌++◌, map, any,
  keep, length, ◌==◌, set, is_some, if◌then◌else◌,
}
use config_policy_controller.Prelude.Text.{str_eq, str_ltb, ◌<>◌, join}
use config_policy_controller.Prelude.Sort.{sort_by}
use config_policy_controller.Policy.{
  compliant, noncompliant, state_eq, Condition, RelatedObject, is_must_not_have,
}
use config_policy_controller.Operator.{
  OperatorPolicy, OwnerReference, related_objs_of_kind, get_condition,
}
use config_policy_controller.Operator.Conds.{
  compliant_condition_type, valid_policy_condition_type, op_group_condition_type,
  sub_condition_type, csv_condition_type, crd_condition_type, deployment_condition_type,
  catalog_src_condition_type, install_plan_condition_type, deprecation_type,
}

-- `conditionChanged`
unfoldable pub condition_changed : Condition → Condition → Bool
condition_changed updated existing =
    not (str_eq updated.message existing.message)
    || (not (str_eq updated.reason existing.reason) || not (str_eq updated.status existing.status))

-- What the calculation gathers.
pub record Verdict : Type 0 where
  pub found_noncompliant : Bool
  pub messages : List String

-- One of the known conditions: its message, or another one if it is missing.
unfoldable pub check_condition : List Condition → String → String → String → Verdict → Verdict
check_condition conditions cond_type unknown wanted v = elim (get_condition conditions cond_type) [
  | none ↦ record { found_noncompliant = true; messages = v.messages ++ unknown ∷ [] }
  | some (i, cond) ↦ record {
    found_noncompliant = v.found_noncompliant || not (str_eq cond.status wanted);
    messages = v.messages ++ cond.message ∷ [];
  }
]

-- The conditions that are always checked: their types, the messages when they are missing, and the
-- status that is compliant.
abbrev pub known_conditions : List (String × (String × String))
known_conditions =
    (valid_policy_condition_type, ("the validity of the policy is unknown", "True"))
    ∷ (op_group_condition_type, ("the status of the OperatorGroup is unknown", "True"))
    ∷ (sub_condition_type, ("the status of the Subscription is unknown", "True"))
    ∷ (install_plan_condition_type, ("the status of the InstallPlan is unknown", "True"))
    ∷ (csv_condition_type, ("the status of the ClusterServiceVersion is unknown", "True"))
    ∷ (crd_condition_type, ("the status of the CustomResourceDefinitions is unknown", "True"))
    ∷ (deployment_condition_type, ("the status of the Deployments are unknown", "True"))
    ∷ (catalog_src_condition_type, ("the status of the CatalogSource is unknown", "False"))
    ∷ []

unfoldable pub check_each : List Condition → List (String × (String × String)) → Verdict → Verdict
unfolding check_condition
check_each conditions [] v = v
check_each conditions ((cond_type, (unknown, wanted)) ∷ rest) v =
    check_each conditions rest (check_condition conditions cond_type unknown wanted v)

abbrev pub reports_deprecations : OperatorPolicy → Bool
reports_deprecations policy =
    not (is_must_not_have policy.spec.compliance_type)
    && str_eq policy.spec.compliance_config.deprecations_present "NonCompliant"

unfoldable pub check_all : OperatorPolicy → Verdict
unfolding check_each
check_all policy =
    let conditions = policy.status.conditions in
    let known =
      check_each conditions known_conditions
        (record { found_noncompliant = false; messages = [] }) in
    if reports_deprecations policy
    then check_condition conditions deprecation_type "The deprecation status is unknown" "True"
        known
    else known

-- `calculateComplianceCondition`
unfoldable pub calculate_compliance_condition : OperatorPolicy → ℕ → Condition
unfolding check_all
calculate_compliance_condition policy now =
    let v = check_all policy in
    if v.found_noncompliant
    then record {
      kind = compliant_condition_type;
      status = "False";
      last_transition_time = now;
      reason = "NonCompliant";
      message = "NonCompliant; " <> join ", " v.messages;
    }
    else record {
      kind = compliant_condition_type;
      status = "True";
      last_transition_time = now;
      reason = "Compliant";
      message = "Compliant; " <> join ", " v.messages;
    }

abbrev pub type_less : Condition → Condition → Bool
type_less a b = str_ltb a.kind b.kind

-- A condition is written at a position, or appended.
abbrev pub put_at : Option (ℕ × Condition) → Condition → List Condition → List Condition
put_at none c conditions = conditions ++ c ∷ []
put_at (some (i, d)) c conditions = set conditions i c

-- The condition is put in the place of the one of its type, or at the end.
unfoldable pub place : Condition → List Condition → List Condition
unfolding get_condition
place c conditions = put_at (get_condition conditions c.kind) c conditions

-- `updateComplianceCondition`
unfoldable pub update_compliance_condition : OperatorPolicy → ℕ → OperatorPolicy
unfolding calculate_compliance_condition place
update_compliance_condition policy now =
    let updated = calculate_compliance_condition policy now in
    record policy {
      status = record (policy.status) {
        conditions = sort_by type_less (place updated policy.status.conditions);
        compliance_state = if str_eq updated.status "True" then compliant else noncompliant;
      };
    }

-- A previous related object and an updated one of the same name differ.
unfoldable pub related_changed : RelatedObject → RelatedObject → Bool
related_changed prev updated =
    let uid_changed : Bool = elim (updated.properties) [
      | none ↦ false
      | some p ↦ elim (prev.properties) [ none ↦ false | some q ↦ not (str_eq p.uid q.uid) ]
    ] in
    uid_changed
    || (not (str_eq prev.compliant updated.compliant) || not (str_eq prev.reason updated.reason))

abbrev pub same_name : RelatedObject → RelatedObject → Bool
same_name prev updated = str_eq prev.object.name updated.object.name

-- The updated object takes over whether the policy created the previous one, if it is that one.
unfoldable pub take_created : RelatedObject → RelatedObject → RelatedObject
take_created prev updated = elim (updated.properties) [
  | none ↦ updated
  | some p ↦ elim (prev.properties) [
    | none ↦ updated
    | some q ↦
        if same_name prev updated && (str_eq p.uid q.uid && is_some q.created_by_policy)
        then record updated {
          properties = some (record p { created_by_policy = q.created_by_policy });
        }
        else updated
  ]
]

-- The loop over the previous objects: the updated ones, and whether something changed.
unfoldable pub compare_related :
    List (ℕ × RelatedObject) → List RelatedObject → Bool → List RelatedObject × Bool
unfolding related_changed take_created
compare_related [] updated changed = (updated, changed)
compare_related ((i, prev) ∷ rest) updated changed =
    let found = any (same_name prev) updated in
    let differs = any (λ u. same_name prev u && related_changed prev u) updated in
    compare_related rest (map (take_created prev) updated) (changed || (differs || not found))

abbrev pub related_less : RelatedObject → RelatedObject → Bool
related_less a b =
    if not (str_eq a.object.kind b.object.kind)
    then str_ltb a.object.kind b.object.kind
    else str_ltb a.object.name b.object.name

abbrev pub kind_of : List RelatedObject → Option String
kind_of [] = none
kind_of (u ∷ us) = some u.object.kind

abbrev pub of_kind : Option String → RelatedObject → Bool
of_kind none r = false
of_kind (some kind) r = str_eq r.object.kind kind

abbrev pub previous : Option String → List RelatedObject → List (ℕ × RelatedObject)
previous none related = []
previous (some kind) related = related_objs_of_kind kind 0 related

-- The related objects, and whether they changed.
unfoldable pub update_related : List RelatedObject → List RelatedObject → List RelatedObject × Bool
unfolding compare_related related_objs_of_kind
update_related related updated =
    let prev = previous (kind_of updated) related in
    let compared = compare_related prev updated false in
    let changed = compared.1 || not (length prev == length updated) in
    (
      if changed
          then sort_by related_less
              (keep (λ r. not (of_kind (kind_of updated) r)) related ++ compared.0)
          else related,
      changed,
    )

-- A condition without a time gets the present one.
abbrev pub with_time : Condition → ℕ → Condition
with_time c now = if c.last_transition_time == 0 then record c { last_transition_time = now } else c

unfoldable pub condition_is_new : Condition → List Condition → Bool
unfolding condition_changed
condition_is_new c conditions = elim (get_condition conditions c.kind) [
  | none ↦ true
  | some (i, existing) ↦ condition_changed c existing
]

-- `updateStatus`: the policy, and whether its status is to be updated.
unfoldable pub update_status :
    OperatorPolicy → ℕ → Condition → List RelatedObject → OperatorPolicy × Bool
unfolding condition_is_new place update_compliance_condition update_related
update_status policy now updated_condition updated_related_objs =
    let updated = with_time updated_condition now in
    let cond_changed = condition_is_new updated policy.status.conditions in
    let placed = record policy {
      status = record (policy.status) {
        conditions =
            if cond_changed
            then place updated policy.status.conditions
            else policy.status.conditions;
      };
    } in
    let computed = update_compliance_condition placed now in
    let related = update_related computed.status.related_objects updated_related_objs in
    let gen_updated = not (policy.generation == computed.status.observed_generation) in
    (
      record computed {
        status = record (computed.status) {
          related_objects = related.0;
          observed_generation = policy.generation;
        };
      },
      cond_changed || (related.1 || gen_updated),
    )

pub record ComplianceEvent : Type 0 where
  pub name : String
  pub namespace : String
  pub involved : OwnerReference
  pub reason : String
  pub message : String
  pub event_type : String

-- `emitComplianceEvent`, up to the request that creates the event; `none` if there is no owner. The
-- time stands in hexadecimal digits in the name.
unfoldable pub emit_compliance_event : OperatorPolicy → String → Condition → Option ComplianceEvent
emit_compliance_event policy now_hex cond = elim (policy.owner_references) [
  | [] ↦ none
  | ◌∷◌ owner rest ↦ some (record {
    name = owner.name <> ("." <> now_hex);
    namespace = policy.namespace;
    involved = owner;
    reason = "policy: " <> (policy.namespace <> ("/" <> policy.name));
    message = cond.message;
    event_type =
        if not (state_eq policy.status.compliance_state compliant) then "Warning" else "Normal";
  })
]
