-- ===== src/Operator/Missing.antt =====
-- What becomes of deployments that are missing.
use config_policy_controller.Prelude.{
  ℕ, String, ◌≡◌, refl, true, false, some, List, [], ◌∷◌, All, map,
}
use config_policy_controller.Policy.{RelatedObject, is_must_have, is_must_not_have}
use config_policy_controller.Operator.{OperatorPolicy}
use config_policy_controller.Operator.Conds.{deployment_condition_type}
use config_policy_controller.Operator.Objs.{missing_obj}
use config_policy_controller.Operator.Health.{build_deployment_cond}
use config_policy_controller.Operator.Status.{update_status}
use config_policy_controller.Operator.Deployments.{
  FoundDeployment, deployment_missing, gathered, CsvDeployments, add_deployment, gather,
  report_deployments, handle_deployment,
}
use config_policy_controller.Operator.Lookup.{cond_at, IsUnique}
use config_policy_controller.Operator.Compliance.{HasStatus}
use config_policy_controller.Operator.Said.{update_status-HasStatus}

module _ {World : Type 0} (get : String → String → World → World × FoundDeployment)
    (policy : OperatorPolicy) (now : ℕ) where
  -- The related object of a missing deployment.
  abbrev pub missing : String → String → RelatedObject
  missing namespace name =
      missing_obj name namespace policy.spec.compliance_type "Deployment" "apps/v1"

  module _ (namespace : String)
      (gone : (name : String) (w : World) → (get namespace name w).1 ≡ deployment_missing) where
    gather-missing :
        (names : List String) (w : World)
        → (gather get policy now namespace names w).1
          ≡ gathered
              (record { related = map (missing namespace) names; unavailable = []; dep_num = 0 })
    unfolding gather add_deployment
    gather-missing [] w = refl
    gather-missing (name ∷ names) w =
        rw (gone name w, gather) (rw (gather-missing names (get namespace name w).0) refl)

    missing_compliance :
        (names : List String)
        → is_must_have policy.spec.compliance_type ≡ true
        → All (λ (r : RelatedObject). r.compliant ≡ "NonCompliant") (map (missing namespace) names)
    unfolding missing_obj
    missing_compliance [] wanted = tt
    missing_compliance (name ∷ names) wanted = (rw wanted refl, missing_compliance names wanted)

    -- For a policy that wants the operator and whose conditions have different types, and a
    -- ClusterServiceVersion of which every deployment is missing: the related objects given to the
    -- status are those of the missing deployments, all noncompliant, but the condition about
    -- deployments has its compliant status.
    pub handle_deployment-missing :
        (names : List String) (w : World)
        → IsUnique policy.status.conditions
        → is_must_have policy.spec.compliance_type ≡ true
        → is_must_not_have policy.spec.compliance_type ≡ false
        → let csv : CsvDeployments = record { namespace = namespace; deployments = names } in
          ((handle_deployment get policy now (some csv) w).1.policy
            ≡ (update_status policy now
                (build_deployment_cond policy.spec.compliance_config.deployments_unavailable false
                  [])
                (map (missing namespace) names)).0)
          × All
              (λ (r : RelatedObject). r.compliant ≡ "NonCompliant")
              (map (missing namespace) names)
          × HasStatus
              (cond_at
                (handle_deployment get policy now (some csv) w).1.policy.status.conditions
                deployment_condition_type)
              "True"
    unfolding handle_deployment report_deployments build_deployment_cond
    handle_deployment-missing names w unique wanted wanted' =
        let c =
          build_deployment_cond policy.spec.compliance_config.deployments_unavailable false [] in
        let related = map (missing namespace) names in
        rw (gather-missing names w) (
          rw wanted' (
            refl,
            missing_compliance names wanted,
            (update_status-HasStatus policy now c related "True" unique refl).1 refl,
          ))
