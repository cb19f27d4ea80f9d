-- ===== src/Operator/Deployments.antt =====
-- The handling of the operator's deployments: `handleDeployment` of
-- controllers/operatorpolicy_controller.go. What the watcher returns for a deployment is a
-- parameter.
use config_policy_controller.Prelude.{
  ℕ, suc, String, Option, none, some, List, [], ◌∷◌, ltb, if◌then◌else◌,
}
use config_policy_controller.Prelude.Text.{◌<>◌}
use config_policy_controller.Policy.{RelatedObject, is_must_have, is_must_not_have}
use config_policy_controller.Operator.{OperatorPolicy}
use config_policy_controller.Operator.Conds.{deployment, not_applicable_cond}
use config_policy_controller.Operator.Objs.{missing_obj, found_not_applicable_obj}
use config_policy_controller.Operator.Health.{
  Deployment, build_deployment_cond, existing_deployment_obj, no_deployments_cond,
  no_existing_deployment_obj,
}
use config_policy_controller.Operator.Status.{update_status}
use config_policy_controller.Operator.Response.{Response, updated_to, failing}

-- What the watcher returns: an error, nothing, an object that is no Deployment, or one that is.
pub data FoundDeployment : Type 0 where
  deployment_failed : String → FoundDeployment
  deployment_missing deployment_unreadable : FoundDeployment
  deployment_found : Deployment → FoundDeployment

-- What the loop gathers, from the last deployment to the first.
pub record Gathered : Type 0 where
  pub related : List RelatedObject
  pub unavailable : List Deployment
  pub dep_num : ℕ

pub data Gathering : Type 0 where
  gathered : Gathered → Gathering
  broken : String → Gathering

-- What is read of the ClusterServiceVersion: its namespace, and the names of its deployments.
pub record CsvDeployments : Type 0 where
  pub namespace : String
  pub deployments : List String

module _ {World : Type 0} (get : String → String → World → World × FoundDeployment)
    (policy : OperatorPolicy) (now : ℕ) where
  abbrev pub start : Gathered
  start = record { related = []; unavailable = []; dep_num = 0 }

  -- What one deployment adds in front of those after it.
  unfoldable pub add_deployment : String → String → FoundDeployment → Gathered → Gathered
  add_deployment namespace name deployment_missing g = record g {
    related =
        missing_obj name namespace policy.spec.compliance_type "Deployment" "apps/v1" ∷ g.related;
  }
  add_deployment namespace name (deployment_found dep) g = record {
    related =
        (if is_must_not_have policy.spec.compliance_type
          then found_not_applicable_obj dep.object
          else existing_deployment_obj dep policy.spec.compliance_config.deployments_unavailable)
        ∷ g.related;
    unavailable = if ltb 0 dep.unavailable_replicas then dep ∷ g.unavailable else g.unavailable;
    dep_num = suc g.dep_num;
  }
  add_deployment namespace name other g = g

  abbrev pub adding : String → String → FoundDeployment → Gathering → Gathering
  adding namespace name (deployment_failed e) rest = broken ("error getting the Deployment: " <> e)
  adding namespace name found (broken e) = broken e
  adding namespace name found (gathered g) = gathered (add_deployment namespace name found g)

  -- The loop over the deployments. After an error the watcher is not asked again.
  unfoldable pub gather : String → List String → World → World × Gathering
  unfolding add_deployment
  gather namespace [] w = (w, gathered start)
  gather namespace (name ∷ names) w =
      let (w', found) = get namespace name w in
      let rest = gather namespace names w' in
      elim found [
        | deployment_failed e ↦ (w', adding namespace name (deployment_failed e) rest.1)
        | other ↦ (rest.0, adding namespace name other rest.1)
      ]

  unfoldable pub report_deployments : Gathering → Response
  report_deployments (broken e) = failing policy e
  report_deployments (gathered g) = updated_to (
      update_status policy now
        (if is_must_not_have policy.spec.compliance_type
          then not_applicable_cond deployment
          else build_deployment_cond policy.spec.compliance_config.deployments_unavailable
              (ltb 0 g.dep_num) g.unavailable)
        g.related)

  -- `handleDeployment`
  unfoldable pub handle_deployment : Option CsvDeployments → World → World × Response
  unfolding gather report_deployments
  handle_deployment none w = (
    w,
    updated_to (
        if is_must_have policy.spec.compliance_type
        then update_status policy now no_deployments_cond (no_existing_deployment_obj ∷ [])
        else update_status policy now (not_applicable_cond deployment) []),
  )
  handle_deployment (some csv) w =
      let (w', g) = gather csv.namespace csv.deployments w in (w', report_deployments g)
