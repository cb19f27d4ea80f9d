-- ===== src/Operator/Samples.antt =====
-- Policies for the runs of the handling of operator policies.
use config_policy_controller.Prelude.{String, none, List, []}
use config_policy_controller.Policy.{noncompliant, Condition}
use config_policy_controller.Operator.{OperatorPolicy}

abbrev pub policy_with : String → String → List Condition → OperatorPolicy
policy_with compliance_type remediation conditions = record {
  kind = "OperatorPolicy";
  api_version = "policy.open-cluster-management.io/v1beta1";
  name = "p";
  namespace = "managed";
  uid = "u";
  generation = 1;
  owner_references = [];
  spec = record {
    remediation_action = remediation;
    compliance_type = compliance_type;
    versions = [];
    removal_behavior = record { operator_groups = ""; subscriptions = ""; csvs = ""; crds = "" };
    upgrade_approval = "None";
    compliance_config = record {
      catalog_source_unhealthy = "Compliant";
      deployments_unavailable = "NonCompliant";
      upgrades_available = "Compliant";
      deprecations_present = "Compliant";
    };
  };
  status = record {
    compliance_state = noncompliant;
    observed_generation = 1;
    conditions = conditions;
    related_objects = [];
    resolved_subscription_label = "";
    overlapping_policies = [];
    subscription_intervention_time = none;
  };
}

abbrev pub new_policy : OperatorPolicy
new_policy = policy_with "musthave" "inform" []

abbrev pub unwanted : OperatorPolicy
unwanted = policy_with "mustnothave" "enforce" []
