-- ===== src/Operator/Conds.antt =====
-- The conditions of an operator policy: the functions and values of
-- controllers/operatorpolicy_status.go that make a condition. The times are missing, unless a condition takes over one.
use config_policy_controller.Prelude.{ℕ, String, Option, none, some, List, [], ◌∷◌, if◌then◌else◌}
use config_policy_controller.Prelude.Text.{str_eq, str_ltb, ◌<>◌, join}
use config_policy_controller.Prelude.Sort.{sort_by}
use config_policy_controller.Policy.{Condition}
use config_policy_controller.Operator.{ComplianceConfigAction}

abbrev pub compliant_condition_type : String
compliant_condition_type = "Compliant"

abbrev pub valid_policy_condition_type : String
valid_policy_condition_type = "ValidPolicySpec"

abbrev pub op_group_condition_type : String
op_group_condition_type = "OperatorGroupCompliant"

abbrev pub sub_condition_type : String
sub_condition_type = "SubscriptionCompliant"

abbrev pub csv_condition_type : String
csv_condition_type = "ClusterServiceVersionCompliant"

abbrev pub crd_condition_type : String
crd_condition_type = "CustomResourceDefinitionCompliant"

abbrev pub deployment_condition_type : String
deployment_condition_type = "DeploymentCompliant"

abbrev pub catalog_src_condition_type : String
catalog_src_condition_type = "CatalogSourcesUnhealthy"

abbrev pub install_plan_condition_type : String
install_plan_condition_type = "InstallPlanCompliant"

abbrev pub deprecation_type : String
deprecation_type = "NoDeprecations"

-- The kinds that have a condition; the code passes them as texts.
pub data Kind : Type 0 where
  operator_group subscription install_plan cluster_service_version : Kind
  custom_resource_definition deployment catalog_source : Kind

abbrev pub kind_text : Kind → String
kind_text operator_group = "OperatorGroup"
kind_text subscription = "Subscription"
kind_text install_plan = "InstallPlan"
kind_text cluster_service_version = "ClusterServiceVersion"
kind_text custom_resource_definition = "CustomResourceDefinition"
kind_text deployment = "Deployment"
kind_text catalog_source = "CatalogSource"

-- `condType`, for the kinds that it knows.
abbrev pub cond_type : Kind → String
cond_type operator_group = op_group_condition_type
cond_type subscription = sub_condition_type
cond_type install_plan = install_plan_condition_type
cond_type cluster_service_version = csv_condition_type
cond_type custom_resource_definition = crd_condition_type
cond_type deployment = deployment_condition_type
cond_type catalog_source = catalog_src_condition_type

-- The kind of a text; on any other one `condType` panics.
unfoldable pub kind_of_text : String → Option Kind
kind_of_text text =
    if str_eq text "OperatorGroup"
    then some operator_group
    else if str_eq text "Subscription"
    then some subscription
    else if str_eq text "InstallPlan"
    then some install_plan
    else if str_eq text "ClusterServiceVersion"
    then some cluster_service_version
    else if str_eq text "CustomResourceDefinition"
    then some custom_resource_definition
    else if str_eq text "Deployment"
    then some deployment
    else if str_eq text "CatalogSource"
    then some catalog_source
    else none

abbrev pub condition : String → String → String → String → Condition
condition cond_type' status reason message = record {
  kind = cond_type';
  status = status;
  last_transition_time = 0;
  reason = reason;
  message = message;
}

-- A condition of the type for a kind: what follows the kind in the reason, what goes before and
-- after it in the message.
abbrev pub cond_of : Kind → String → String → String → String → Condition
cond_of kind status suffix before after =
    condition (cond_type kind) status (kind_text kind <> suffix)
      (before <> (kind_text kind <> after))

unfoldable pub invalid_causing_unknown_cond : Kind → Condition
invalid_causing_unknown_cond kind = condition (cond_type kind) "Unknown" "InvalidPolicySpec" (
    "the status of the "
    <> (kind_text kind <> " could not be determined because the policy is invalid"))

unfoldable pub missing_wanted_cond : Kind → Condition
missing_wanted_cond kind =
    cond_of kind "False" "Missing" "the " " required by the policy was not found"

unfoldable pub missing_not_wanted_cond : Kind → Condition
missing_not_wanted_cond kind = cond_of kind "True" "NotPresent" "the " " is not present"

-- The words for no identifier, one, or several: the verb for one and the verb for several.
abbrev pub extra_info : List String → String → String → String
extra_info [] one several = one
extra_info (i ∷ []) one several = " (" <> (i <> (")" <> one))
extra_info (i ∷ j ∷ is) one several = "s (" <> (join ", " (i ∷ j ∷ is) <> (")" <> several))

unfoldable pub found_not_wanted_cond : Kind → List String → Condition
found_not_wanted_cond kind identifiers =
    cond_of kind "False" "Present" "the " (extra_info identifiers " is" " are" <> " present")

unfoldable pub created_cond : Kind → Condition
created_cond kind = cond_of kind "True" "Created" "the " " required by the policy was created"

unfoldable pub deleted_cond : Kind → List String → Condition
deleted_cond kind identifiers =
    cond_of kind "True" "Deleted" "the " (extra_info identifiers " was" " were" <> " deleted")

unfoldable pub deleting_cond : Kind → List String → Condition
deleting_cond kind identifiers =
    cond_of kind "False" "Deleting" "the "
      (extra_info identifiers " has" " have" <> " a deletion timestamp")

unfoldable pub kept_cond : Kind → Condition
kept_cond kind = cond_of kind "True" "Kept" "the policy specifies to keep the " ""

unfoldable pub matches_cond : Kind → Condition
matches_cond kind = cond_of kind "True" "Matches" "the " " matches what is required by the policy"

unfoldable pub mismatch_cond : Kind → Condition
mismatch_cond kind =
    cond_of kind "False" "Mismatch" "the " " found on the cluster does not match the policy"

unfoldable pub mismatch_cond_unfixable : Kind → Condition
mismatch_cond_unfixable kind =
    cond_of kind "False" "Mismatch" "the "
      " found on the cluster does not match the policy and can't be enforced"

unfoldable pub updated_cond : Kind → Condition
updated_cond kind = cond_of kind "True" "Updated" "the " " was updated to match the policy"

unfoldable pub not_applicable_cond : Kind → Condition
not_applicable_cond kind =
    cond_of kind "True" "NotApplicable" "MustNotHave policies ignore kind " ""

-- `deprecationCond`, for a schema `Bundle`, `Channel` or `Package`.
unfoldable pub deprecation_cond : String → String → String → Condition
deprecation_cond dep_schema_name dep_schema message =
    condition deprecation_type "False" (dep_schema <> "Deprecated") (
      "the requested "
      <> (dep_schema_name <> (" " <> (dep_schema <> (" was deprecated. " <> message)))))

-- `validationCond`, for the texts of the errors.
unfoldable pub validation_cond : List String → Condition
validation_cond [] =
    condition valid_policy_condition_type "True" "PolicyValidated" "the policy spec is valid"
validation_cond (e ∷ es) =
    condition valid_policy_condition_type "False" "InvalidPolicySpec" (join ", " (e ∷ es))

abbrev pub sub_constraints_not_satisfiable_cond : Condition
sub_constraints_not_satisfiable_cond =
    condition sub_condition_type "False" "ConstraintsNotSatisfiable"
      "constraints not satisfiable: refer to the Subscription for more details"

-- `subResFailedCond`, for the reason, the message and the time of the subscription's condition.
unfoldable pub sub_res_failed_cond : String → String → Option ℕ → Condition
sub_res_failed_cond reason message time =
    let cond = condition sub_condition_type "False" reason message in
    elim time [ none ↦ cond | some t ↦ record cond { last_transition_time = t } ]

abbrev pub op_group_preexisting_cond : Condition
op_group_preexisting_cond =
    condition op_group_condition_type "True" "PreexistingOperatorGroupFound"
      "the policy does not specify an OperatorGroup but one already exists in the namespace - assuming that OperatorGroup is correct"

abbrev pub op_group_too_many_cond : Condition
op_group_too_many_cond =
    condition op_group_condition_type "False" "TooManyOperatorGroups"
      "there is more than one OperatorGroup in the namespace"

abbrev pub no_install_plans_cond : Condition
no_install_plans_cond =
    condition install_plan_condition_type "True" "NoInstallPlansFound"
      "there are no relevant InstallPlans in the namespace"

abbrev pub install_plan_failed : Condition
install_plan_failed =
    condition install_plan_condition_type "False" "InstallPlanFailed"
      "the current InstallPlan has failed"

abbrev pub install_plan_installing_cond : Condition
install_plan_installing_cond =
    condition install_plan_condition_type "False" "InstallPlansInstalling"
      "a relevant InstallPlan is actively installing"

abbrev pub install_plans_no_approvals : Condition
install_plans_no_approvals =
    condition install_plan_condition_type "True" "NoInstallPlansRequiringApproval"
      "no InstallPlans requiring approval were found"

-- `installPlanUpgradeCond`
unfoldable pub install_plan_upgrade_cond :
    ComplianceConfigAction → List String → List String → Condition
install_plan_upgrade_cond compliance_config csvs remaining =
    let listed =
      "an InstallPlan to update to ["
      <> (join ", " (sort_by str_ltb csvs) <> "] is available for approval") in
    let required =
      " but approval for [" <> (join ", " (sort_by str_ltb remaining) <> "] is required") in
    condition install_plan_condition_type
      (if str_eq compliance_config "Compliant" then "True" else "False")
      "InstallPlanRequiresApproval" (listed <> (elim remaining [ [] ↦ "" | ◌∷◌ r rs ↦ required ]))

unfoldable pub install_plan_approved_cond : String → Condition
install_plan_approved_cond version =
    condition install_plan_condition_type "True" "InstallPlanApproved"
      ("the InstallPlan for " <> (version <> " was approved"))
