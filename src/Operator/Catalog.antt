-- ===== src/Operator/Catalog.antt =====
-- The handling of the operator's catalog source: `handleCatalogSource`, `musthaveCatalogSource` and
-- `mustnothaveCatalogSource` of controllers/operatorpolicy_controller.go. What the watcher returns
-- for the catalog source is an argument.
use config_policy_controller.Prelude.{
  ℕ, String, Bool, true, false, not, Option, none, some, [], ◌∷◌, if◌then◌else◌,
}
use config_policy_controller.Prelude.Text.{str_eq, ◌<>◌}
use config_policy_controller.Policy.{Condition, is_must_have, is_must_not_have}
use config_policy_controller.Operator.{OperatorPolicy}
use config_policy_controller.Operator.Conds.{
  catalog_source, invalid_causing_unknown_cond, not_applicable_cond,
}
use config_policy_controller.Operator.Objs.{Object, missing_obj, found_not_applicable_obj}
use config_policy_controller.Operator.Health.{
  catalog_source_find_cond, catalog_source_unknown_cond, catalog_source_obj,
  catalog_src_unknown_obj,
}
use config_policy_controller.Operator.Status.{update_status}
use config_policy_controller.Operator.Response.{Response, updated_to, failing}

-- What is read of a catalog source: the last observed state of its connection, if there is one.
pub record CatalogSource : Type 0 where
  pub object : Object
  pub last_observed_state : Option String

pub data FoundCatalog : Type 0 where
  catalog_failed catalog_unreadable : String → FoundCatalog
  catalog_missing : FoundCatalog
  catalog_found : CatalogSource → FoundCatalog

-- The subscription's reference to its catalog source.
pub record CatalogName : Type 0 where
  pub name : String
  pub namespace : String

module _ (policy : OperatorPolicy) (now : ℕ) where
  -- The condition for a policy that does not want the operator, of the opposite polarity.
  abbrev pub not_applicable_catalog : Condition
  not_applicable_catalog = record (not_applicable_cond catalog_source) { status = "False" }

  unfoldable pub mustnothave_catalog_source : CatalogName → Option CatalogSource → Response
  mustnothave_catalog_source catalog none = updated_to (
      update_status policy now not_applicable_catalog (
        missing_obj catalog.name catalog.namespace "MustNotHave" "CatalogSource"
          "operators.coreos.com/v1alpha1"
        ∷ []))
  mustnothave_catalog_source catalog (some source) = updated_to (
      update_status policy now not_applicable_catalog (found_not_applicable_obj source.object ∷ []))

  -- The status for a catalog source that is missing or whose state is known.
  unfoldable pub found_catalog_source : CatalogName → Bool → Bool → Response
  found_catalog_source catalog is_unhealthy is_missing =
      let config = policy.spec.compliance_config.catalog_source_unhealthy in
      updated_to (
        update_status policy now
          (catalog_source_find_cond config is_unhealthy is_missing catalog.name)
          (catalog_source_obj catalog.name catalog.namespace is_unhealthy is_missing config ∷ []))

  -- The status for a catalog source that is there, by the last observed state of its connection.
  unfoldable pub observed_catalog_source : CatalogName → Object → Option String → Response
  unfolding found_catalog_source
  observed_catalog_source catalog object none = updated_to (
      update_status policy now catalog_source_unknown_cond
        (catalog_src_unknown_obj object.name object.namespace ∷ []))
  observed_catalog_source catalog object (some state) =
      found_catalog_source catalog (not (str_eq state "READY")) false

  unfoldable pub musthave_catalog_source : CatalogName → Option CatalogSource → Response
  unfolding found_catalog_source observed_catalog_source
  musthave_catalog_source catalog none = found_catalog_source catalog true true
  musthave_catalog_source catalog (some source) =
      observed_catalog_source catalog source.object source.last_observed_state

  abbrev pub by_compliance_type : CatalogName → Option CatalogSource → Response
  by_compliance_type catalog source =
      if is_must_not_have policy.spec.compliance_type
      then mustnothave_catalog_source catalog source
      else musthave_catalog_source catalog source

  -- `handleCatalogSource`, for the reference of the subscription if there is one.
  unfoldable pub handle_catalog_source : Option CatalogName → FoundCatalog → Response
  unfolding mustnothave_catalog_source musthave_catalog_source
  handle_catalog_source none found = updated_to (
      update_status policy now
        (if is_must_have policy.spec.compliance_type
          then invalid_causing_unknown_cond catalog_source
          else not_applicable_catalog)
        [])
  handle_catalog_source (some catalog) (catalog_failed e) =
      failing policy ("error getting CatalogSource: " <> e)
  handle_catalog_source (some catalog) (catalog_unreadable e) =
      failing policy ("error converting the retrieved CatalogSource to the Go type: " <> e)
  handle_catalog_source (some catalog) catalog_missing = by_compliance_type catalog none
  handle_catalog_source (some catalog) (catalog_found source) =
      by_compliance_type catalog (some source)
