-- ===== src/Operator/Objs.antt =====
-- The related objects of an operator policy: the functions and values of
-- controllers/operatorpolicy_status.go that make one, with `ObjectResourceFromObj` of
-- api/v1/configurationpolicy_types.go.
use config_policy_controller.Prelude.{
  String, Bool, true, not, ◌||◌, Option, none, some, List, map, if◌then◌else◌,
}
use config_policy_controller.Prelude.Text.{str_eq, ◌<>◌}
use config_policy_controller.Policy.{
  ComplianceType, is_must_have, ObjectResource, ObjectProperties, RelatedObject,
}
use config_policy_controller.Operator.{ComplianceConfigAction}

-- What is read of an object: its kind, its group and version, its name, namespace and UID.
pub record Object : Type 0 where
  pub kind : String
  pub group_version : String
  pub name : String
  pub namespace : String
  pub uid : String

-- `ObjectResourceFromObj`
unfoldable pub object_resource_from_obj : Object → ObjectResource
object_resource_from_obj o = record {
  kind = o.kind;
  api_version = o.group_version;
  name = if str_eq o.name "" then "-" else o.name;
  namespace = o.namespace;
}

abbrev pub properties : Option Bool → String → Option ObjectProperties
properties created_by_policy uid =
    some (record { created_by_policy = created_by_policy; uid = uid; diff = "" })

abbrev pub related : Option ObjectProperties → ObjectResource → String → String → RelatedObject
related props object compliant reason = record {
  properties = props;
  object = object;
  compliant = compliant;
  reason = reason;
}

-- A related object with the UID, and one without.
unfoldable pub with_uid : Object → String → String → RelatedObject
unfolding object_resource_from_obj
with_uid o compliant reason =
    related (properties none o.uid) (object_resource_from_obj o) compliant reason

unfoldable pub without_uid : Object → String → String → RelatedObject
unfolding object_resource_from_obj
without_uid o compliant reason = related none (object_resource_from_obj o) compliant reason

unfoldable pub missing_wanted_obj : Object → RelatedObject
unfolding without_uid
missing_wanted_obj o = without_uid o "NonCompliant" "Resource not found but should exist"

unfoldable pub missing_not_wanted_obj : Object → RelatedObject
unfolding without_uid
missing_not_wanted_obj o = without_uid o "Compliant" "Resource not found as expected"

unfoldable pub found_not_wanted_obj : Object → RelatedObject
unfolding with_uid
found_not_wanted_obj o = with_uid o "NonCompliant" "Resource found but should not exist"

unfoldable pub found_not_applicable_obj : Object → RelatedObject
unfolding with_uid
found_not_applicable_obj o =
    with_uid o "Compliant" "Resource found but will not be handled in mustnothave mode"

abbrev pub named : String → String → String → String → ObjectResource
named kind api_version name namespace = record {
  kind = kind;
  api_version = api_version;
  name = name;
  namespace = namespace;
}

-- `missingObj`, for the kind and the group and version of the object.
unfoldable pub missing_obj : String → String → ComplianceType → String → String → RelatedObject
missing_obj name namespace compliance_type kind group_version =
    let wanted = is_must_have compliance_type in
    related none (named kind group_version name namespace)
      (if wanted then "NonCompliant" else "Compliant")
      (if wanted then "Resource not found but should exist" else "Resource not found as expected")

unfoldable pub created_obj : Object → RelatedObject
unfolding object_resource_from_obj
created_obj o =
    related (properties (some true) o.uid) (object_resource_from_obj o) "Compliant"
      "K8s creation success"

unfoldable pub deleted_obj : Object → RelatedObject
unfolding without_uid
deleted_obj o = without_uid o "Compliant" "K8s deletion success"

unfoldable pub deleting_obj : Object → RelatedObject
unfolding without_uid
deleting_obj o =
    without_uid o "NonCompliant" "The object is being deleted but has not been removed yet"

unfoldable pub matched_obj : Object → RelatedObject
unfolding with_uid
matched_obj o = with_uid o "Compliant" "Resource found as expected"

unfoldable pub mismatched_obj : Object → RelatedObject
unfolding with_uid
mismatched_obj o = with_uid o "NonCompliant" "Resource found but does not match"

unfoldable pub updated_obj : Object → RelatedObject
unfolding with_uid
updated_obj o = with_uid o "Compliant" "K8s update success"

unfoldable pub non_comp_obj : Object → String → RelatedObject
unfolding with_uid
non_comp_obj o reason = with_uid o "NonCompliant" reason

unfoldable pub leftover_obj : Object → RelatedObject
unfolding with_uid
leftover_obj o =
    with_uid o "" (
      "The " <> (o.kind <> " is attached to a mustnothave policy, but does not need to be removed"))

unfoldable pub op_group_too_many_objs : List Object → List RelatedObject
unfolding with_uid
op_group_too_many_objs op_groups =
    map (λ o. with_uid o "NonCompliant" "There is more than one OperatorGroup in this namespace")
      op_groups

unfoldable pub no_install_plans_obj : String → RelatedObject
no_install_plans_obj namespace =
    related none (named "InstallPlan" "operators.coreos.com/v1alpha1" "-" namespace) "Compliant"
      "There are no relevant InstallPlans in this namespace"

-- `existingInstallPlanObj`
unfoldable pub existing_install_plan_obj : Object → String → ComplianceConfigAction → RelatedObject
unfolding with_uid
existing_install_plan_obj ip phase compliance_config =
    let reason =
      if not (str_eq phase "")
      then "The InstallPlan is " <> phase
      else "The InstallPlan is Unknown" in
    let configured =
      if not (str_eq compliance_config "Compliant") then "NonCompliant" else "Compliant" in
    let compliance =
      if str_eq phase "Installing" || str_eq phase "RequiresApproval"
      then configured
      else if str_eq phase "Complete"
      then "Compliant"
      else "NonCompliant" in
    with_uid ip compliance reason
