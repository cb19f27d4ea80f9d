-- ===== src/Operator/Health.antt =====
-- The conditions and the related objects of the operator's versions, definitions, deployments and
-- catalog source, in controllers/operatorpolicy_status.go.
use config_policy_controller.Prelude.{
  ℕ, String, Bool, not, ◌&&◌, none, List, [], ◌∷◌, map, ◌==◌, if◌then◌else◌,
}
use config_policy_controller.Prelude.Text.{str_eq, ◌<>◌, join}
use config_policy_controller.Policy.{Condition, RelatedObject}
use config_policy_controller.Operator.{ComplianceConfigAction}
use config_policy_controller.Operator.Conds.{
  csv_condition_type, crd_condition_type, deployment_condition_type, catalog_src_condition_type,
  condition, Kind, cond_type,
}
use config_policy_controller.Operator.Objs.{Object, named, related, with_uid}

-- What is read of a ClusterServiceVersion.
pub record Csv : Type 0 where
  pub object : Object
  pub phase : String
  pub reason : String
  pub message : String

abbrev pub succeeded : Csv → Bool
succeeded csv = str_eq csv.phase "Succeeded"

-- `allowedCSVCond`, for the kind that stands in the ClusterServiceVersion.
unfoldable pub allowed_csv_cond : Kind → Csv → Condition
allowed_csv_cond kind csv =
    condition (cond_type kind) (if succeeded csv then "True" else "False") csv.reason
      ("ClusterServiceVersion (" <> (csv.object.name <> (") - " <> csv.message)))

-- `disallowedCSVCond`
unfoldable pub disallowed_csv_cond : Kind → Csv → Condition
disallowed_csv_cond kind csv =
    condition (cond_type kind) "False" "UnapprovedVersion"
      ("ClusterServiceVersion (" <> (csv.object.name <> ") is not an approved version"))

abbrev pub no_csv_cond : Condition
no_csv_cond =
    condition csv_condition_type "False" "RelevantCSVNotFound"
      "a relevant installed ClusterServiceVersion could not be found"

abbrev pub no_crd_cond : Condition
no_crd_cond =
    condition crd_condition_type "True" "RelevantCRDNotFound" "no CRDs were found for the operator"

abbrev pub crd_found_cond : Condition
crd_found_cond =
    condition crd_condition_type "True" "RelevantCRDFound" "there are CRDs present for the operator"

-- What is read of a Deployment.
pub record Deployment : Type 0 where
  pub object : Object
  pub unavailable_replicas : ℕ

-- `buildDeploymentCond`
unfoldable pub build_deployment_cond : ComplianceConfigAction → Bool → List Deployment → Condition
build_deployment_cond compliance_config deps_exist [] =
    condition deployment_condition_type "True"
      (if not deps_exist then "NoExistingDeployments" else "DeploymentsAvailable")
      (if not deps_exist
        then "no existing operator Deployments"
        else "all operator Deployments have their minimum availability")
build_deployment_cond compliance_config deps_exist (d ∷ ds) =
    condition deployment_condition_type
      (if str_eq compliance_config "Compliant" then "True" else "False") "DeploymentsUnavailable"
      ("the deployments "
        <> (join ", " (map (λ x. x.object.name) (d ∷ ds))
            <> " do not have their minimum availability"))

abbrev pub no_deployments_cond : Condition
no_deployments_cond =
    condition deployment_condition_type "True" "NoRelevantDeployments"
      "there are no relevant deployments because the ClusterServiceVersion is missing"

-- `catalogSourceFindCond`
unfoldable pub catalog_source_find_cond : ComplianceConfigAction → Bool → Bool → String → Condition
catalog_source_find_cond compliance_config is_unhealthy is_missing name =
    let found_status = if is_missing then "True" else if is_unhealthy then "True" else "False" in
    let status =
      if str_eq found_status "True" && str_eq compliance_config "Compliant"
      then "False"
      else found_status in
    condition catalog_src_condition_type status
      (if is_missing
        then "CatalogSourcesNotFound"
        else if is_unhealthy
        then "CatalogSourcesFoundUnhealthy"
        else "CatalogSourcesFound")
      (if is_missing
        then "CatalogSource '" <> (name <> "' was not found")
        else if is_unhealthy
        then "CatalogSource was found but is unhealthy"
        else "CatalogSource was found")

abbrev pub catalog_source_unknown_cond : Condition
catalog_source_unknown_cond =
    condition "CatalogSourcesUnknownState" "True" "LastObservedUnknown"
      "could not determine last observed state of CatalogSource"

-- `missingCSVObj`
unfoldable pub missing_csv_obj : String → String → RelatedObject
missing_csv_obj name namespace =
    related none (named "ClusterServiceVersion" "operators.coreos.com/v1alpha1" name namespace)
      "NonCompliant" "Resource not found but should exist"

unfoldable pub missing_not_wanted_csv_obj : String → RelatedObject
missing_not_wanted_csv_obj namespace =
    related none (named "ClusterServiceVersion" "operators.coreos.com/v1alpha1" "-" namespace)
      "Compliant" "Resource not found as expected"

unfoldable pub existing_csv_obj : Csv → RelatedObject
unfolding with_uid
existing_csv_obj csv =
    with_uid csv.object (if succeeded csv then "Compliant" else "NonCompliant") csv.reason

unfoldable pub disallowed_csv_obj : Csv → RelatedObject
unfolding with_uid
disallowed_csv_obj csv =
    with_uid csv.object "NonCompliant"
      ("ClusterServiceVersion (" <> (csv.object.name <> ") is not an approved version"))

abbrev pub no_existing_csv_obj : RelatedObject
no_existing_csv_obj =
    related none (named "ClusterServiceVersion" "operators.coreos.com/v1alpha1" "-" "")
      "Inapplicable" "No relevant ClusterServiceVersion found"

abbrev pub no_existing_crd_obj : RelatedObject
no_existing_crd_obj =
    related none (named "CustomResourceDefinition" "apiextensions.k8s.io/v1" "-" "") "Inapplicable"
      "No relevant CustomResourceDefinitions found"

-- `existingDeploymentObj`
unfoldable pub existing_deployment_obj : Deployment → ComplianceConfigAction → RelatedObject
unfolding with_uid
existing_deployment_obj dep compliance_config =
    if dep.unavailable_replicas == 0
    then with_uid dep.object "Compliant" "Deployment Available"
    else if str_eq compliance_config "Compliant"
    then with_uid dep.object "Compliant"
        "Deployment Unavailable (policy compliance is not impacted due to spec.complianceConfig.deploymentsUnavailable)"
    else with_uid dep.object "NonCompliant" "Deployment Unavailable"

abbrev pub no_existing_deployment_obj : RelatedObject
no_existing_deployment_obj =
    related none (named "Deployment" "apps/v1" "-" "") "Inapplicable"
      "No relevant deployments found"

-- `catalogSourceObj`
unfoldable pub catalog_source_obj :
    String → String → Bool → Bool → ComplianceConfigAction → RelatedObject
catalog_source_obj catalog_name catalog_ns is_unhealthy is_missing compliance_config =
    let counts = not (str_eq compliance_config "Compliant") in
    let first = if is_unhealthy && counts then "NonCompliant" else "Compliant" in
    related none (named "CatalogSource" "operators.coreos.com/v1alpha1" catalog_name catalog_ns)
      (if is_missing && counts then "NonCompliant" else first)
      (if is_missing
        then "Resource not found but should exist"
        else if is_unhealthy
        then "Resource found as expected but is unhealthy"
        else "Resource found as expected")

unfoldable pub catalog_src_unknown_obj : String → String → RelatedObject
catalog_src_unknown_obj catalog_name catalog_ns =
    related none (named "CatalogSource" "operators.coreos.com/v1alpha1" catalog_name catalog_ns)
      "NonCompliant" "Resource found but current state is unknown"
