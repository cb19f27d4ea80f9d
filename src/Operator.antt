-- ===== src/Operator.antt =====
-- The operator policies: the types of api/v1beta1/operatorpolicy_types.go with their methods. The
-- children have what controllers/operatorpolicy_status.go makes of the status.
pub mod Conds
pub mod Objs
pub mod Health
pub mod Status
pub mod Response
pub mod Catalog
pub mod Deployments
pub mod Agreement
pub mod Missing
pub mod Removal
pub mod Removed
pub mod Versions
pub mod Groups
pub mod Installed
pub mod Approved
pub mod Lookup
pub mod Compliance
pub mod Updated
pub mod Said
pub mod Reported
pub mod Samples
pub mod Tests
use config_policy_controller.Prelude.{
  ℕ, suc, String, Bool, true, false, ◌-◌, ◌*◌, Option, none, some, List, [], ◌∷◌, ltb,
  if◌then◌else◌,
}
use config_policy_controller.Prelude.Text.{str_eq, equal_fold}
use config_policy_controller.Schedule.{second}
use config_policy_controller.Policy.{
  RemediationAction, ComplianceType, ComplianceState, Condition, RelatedObject,
}

abbrev pub RemovalAction : Type 0
RemovalAction = String

unfoldable pub is_keep : RemovalAction → Bool
is_keep ra = equal_fold ra "Keep"

unfoldable pub is_delete : RemovalAction → Bool
is_delete ra = equal_fold ra "Delete"

unfoldable pub is_delete_if_unused : RemovalAction → Bool
is_delete_if_unused ra = equal_fold ra "DeleteIfUnused"

pub record RemovalBehavior : Type 0 where
  pub operator_groups : RemovalAction
  pub subscriptions : RemovalAction
  pub csvs : RemovalAction
  pub crds : RemovalAction

abbrev pub or_default : String → String → String
or_default value default = if str_eq value "" then default else value

-- `ApplyDefaults`
unfoldable pub apply_defaults : RemovalBehavior → RemovalBehavior
apply_defaults rb = record {
  operator_groups = or_default rb.operator_groups "DeleteIfUnused";
  subscriptions = or_default rb.subscriptions "Delete";
  csvs = or_default rb.csvs "Delete";
  crds = or_default rb.crds "Keep";
}

abbrev pub ComplianceConfigAction : Type 0
ComplianceConfigAction = String

pub record ComplianceConfig : Type 0 where
  pub catalog_source_unhealthy : ComplianceConfigAction
  pub deployments_unavailable : ComplianceConfigAction
  pub upgrades_available : ComplianceConfigAction
  pub deprecations_present : ComplianceConfigAction

pub record OperatorPolicySpec : Type 0 where
  pub remediation_action : RemediationAction
  pub compliance_type : ComplianceType
  pub versions : List String
  pub removal_behavior : RemovalBehavior
  pub upgrade_approval : String
  pub compliance_config : ComplianceConfig

-- A time is a number of nanoseconds; `none` is a missing one.
pub record OperatorPolicyStatus : Type 0 where
  pub compliance_state : ComplianceState
  pub observed_generation : ℕ
  pub conditions : List Condition
  pub related_objects : List RelatedObject
  pub resolved_subscription_label : String
  pub overlapping_policies : List String
  pub subscription_intervention_time : Option ℕ

pub record OwnerReference : Type 0 where
  pub kind : String
  pub name : String
  pub uid : String
  pub api_version : String

pub record OperatorPolicy : Type 0 where
  pub kind : String
  pub api_version : String
  pub name : String
  pub namespace : String
  pub uid : String
  pub generation : ℕ
  pub owner_references : List OwnerReference
  pub spec : OperatorPolicySpec
  pub status : OperatorPolicyStatus

-- `RelatedObjsOfKind`: the related objects of the kind, with their positions from `start` on.
unfoldable pub related_objs_of_kind : String → ℕ → List RelatedObject → List (ℕ × RelatedObject)
related_objs_of_kind kind start [] = []
related_objs_of_kind kind start (r ∷ rs) =
    let rest = related_objs_of_kind kind (suc start) rs in
    if str_eq r.object.kind kind then (start, r) ∷ rest else rest

-- One position further.
abbrev pub shifted : Option (ℕ × Condition) → Option (ℕ × Condition)
shifted none = none
shifted (some (i, c)) = some (suc i, c)

-- `GetCondition`: the position and the condition, or `none` for the position -1.
unfoldable pub get_condition : List Condition → String → Option (ℕ × Condition)
get_condition [] cond_type = none
get_condition (c ∷ cs) cond_type =
    let rest = get_condition cs cond_type in
    if str_eq c.kind cond_type then some (0, c) else shifted rest

-- `SubscriptionInterventionExpired`, at a time; a time within the first ten seconds has no expired
-- one before it.
unfoldable pub subscription_intervention_expired : OperatorPolicyStatus → ℕ → Bool
subscription_intervention_expired status now = elim (status.subscription_intervention_time) [
  | none ↦ false
  | some t ↦ ltb t (now - 10 * second)
]

-- `SubscriptionInterventionWaiting`, at a time.
unfoldable pub subscription_intervention_waiting : OperatorPolicyStatus → ℕ → Bool
subscription_intervention_waiting status now = elim (status.subscription_intervention_time) [
  | none ↦ false
  | some t ↦ ltb now t
]
