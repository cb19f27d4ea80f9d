-- ===== src/Policy.antt =====
-- The API types of api/v1/configurationpolicy_types.go: the fields of a ConfigurationPolicy that
-- the controller's logic reads, and the tests on its string types.
pub mod Intervals
use Prim.Native.Nat.{ℕ}
use Prim.Native.String.{String}
use mathlib.Core.Bool.{Bool, true, false, ◌&&◌, ◌||◌}
use mathlib.Core.Option.{Option}
use mathlib.Core.List.{List}
use config_policy_controller.Prelude.{length, ◌==◌, is_some, not}
use config_policy_controller.Prelude.Text.{str_eq, equal_fold}

-- `RemediationAction` and `ComplianceType` are strings that the API server lets through in several
-- spellings, so they are compared with case folding.
abbrev pub RemediationAction : Type 0
RemediationAction = String

unfoldable pub is_inform : RemediationAction → Bool
is_inform ra = equal_fold ra "Inform"

unfoldable pub is_enforce : RemediationAction → Bool
is_enforce ra = equal_fold ra "Enforce"

abbrev pub ComplianceType : Type 0
ComplianceType = String

unfoldable pub is_must_have : ComplianceType → Bool
is_must_have c = equal_fold c "MustHave"

unfoldable pub is_must_only_have : ComplianceType → Bool
is_must_only_have c = equal_fold c "MustOnlyHave"

unfoldable pub is_must_not_have : ComplianceType → Bool
is_must_not_have c = equal_fold c "MustNotHave"

-- The values that the API server admits for `ComplianceState`, and the empty one.
pub data ComplianceState : Type 0 where
  compliant noncompliant unknown_compliancy terminating pending : ComplianceState

abbrev pub state_eq : ComplianceState → ComplianceState → Bool
state_eq compliant compliant = true
state_eq noncompliant noncompliant = true
state_eq unknown_compliancy unknown_compliancy = true
state_eq terminating terminating = true
state_eq pending pending = true
state_eq _ _ = false

pub record EvaluationInterval : Type 0 where
  pub compliant : String
  pub noncompliant : String

-- A label selector is opaque to this code; only whether there is one is tested.
pub record Target (LabelSelector : Type 0) : Type 0 where
  pub label_selector : Option LabelSelector
  pub includes : List String
  pub excludes : List String

unfoldable pub is_empty : {LabelSelector : Type 0} → Target LabelSelector → Bool
is_empty t = not (is_some t.label_selector) && length t.includes == 0

pub record Condition : Type 0 where
  pub kind : String
  pub status : String
  pub last_transition_time : ℕ
  pub reason : String
  pub message : String

pub record TemplateStatus : Type 0 where
  pub compliance_state : ComplianceState
  pub conditions : List Condition

pub record ObjectResource : Type 0 where
  pub kind : String
  pub api_version : String
  pub name : String
  pub namespace : String

pub record ObjectProperties : Type 0 where
  pub created_by_policy : Option Bool
  pub uid : String
  pub diff : String

pub record RelatedObject : Type 0 where
  pub properties : Option ObjectProperties
  pub object : ObjectResource
  pub compliant : String
  pub reason : String

pub record Spec (LabelSelector : Type 0) : Type 0 where
  pub remediation_action : RemediationAction
  pub evaluation_interval : EvaluationInterval
  pub prune_object_behavior : String
  pub namespace_selector : Target LabelSelector

pub record Status : Type 0 where
  pub compliance_state : ComplianceState
  pub compliancy_details : List TemplateStatus
  pub last_evaluated : String
  pub last_evaluated_generation : ℕ
  pub related_objects : List RelatedObject

-- `deletion_timestamp` keeps only whether it is set.
pub record ConfigurationPolicy (LabelSelector : Type 0) : Type 0 where
  pub name : String
  pub namespace : String
  pub uid : String
  pub generation : ℕ
  pub finalizers : List String
  pub deletion_timestamp : Bool
  pub spec : Spec LabelSelector
  pub status : Status
