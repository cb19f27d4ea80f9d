-- ===== src/Operator/Tests.antt =====
-- Runs of the handling of operator policies, and its theorems at concrete policies.
use config_policy_controller.Prelude.{
  String, ◌≡◌, ◌↔◌, ◌⊎◌, refl, Bool, true, false, ◌||◌, none, some, List, [], ◌∷◌, ◌++◌, map, All,
}
use config_policy_controller.Prelude.Sort.{sort_by, insert_by}
use config_policy_controller.Policy.{
  Condition, RelatedObject, is_inform, is_must_have, is_must_not_have,
}
use config_policy_controller.Operator.{OperatorPolicy, apply_defaults, is_keep}
use config_policy_controller.Operator.Conds.{
  csv_condition_type, deployment_condition_type, catalog_src_condition_type, operator_group,
  matches_cond,
}
use config_policy_controller.Operator.Objs.{Object, missing_obj}
use config_policy_controller.Operator.Health.{Csv, build_deployment_cond}
use config_policy_controller.Operator.Status.{update_status}
use config_policy_controller.Operator.Response.{updated_to}
use config_policy_controller.Operator.Catalog.{CatalogName, catalog_missing, handle_catalog_source}
use config_policy_controller.Operator.Deployments.{
  FoundDeployment, deployment_missing, CsvDeployments, handle_deployment,
}
use config_policy_controller.Operator.Removal.{
  Found, Remover, all_handled, remove_each, mustnothave_csv,
}
use config_policy_controller.Operator.Lookup.{cond_at}
use config_policy_controller.Operator.Compliance.{HasStatus}
use config_policy_controller.Operator.Updated.{IsConsistent, update_status-IsConsistent}
use config_policy_controller.Operator.Reported.{update_status_unreported}
use config_policy_controller.Operator.Updated.{Agree}
use config_policy_controller.Operator.Agreement.{handle_catalog_source-HasStatus}
use config_policy_controller.Operator.Missing.{handle_deployment-missing}
use config_policy_controller.Operator.Versions.{
  Subscription, CsvListing, csvs_listed, CsvResponse, handle_csv,
}
use config_policy_controller.Operator.Installed.{listed_of}
use config_policy_controller.Operator.Approved.{IsGood, handle_csv-IsGood}
use config_policy_controller.Operator.Removed.{
  Notes, handled_obj, remove_each_lem, mustnothave_csv_again,
}
use config_policy_controller.Operator.Samples.{new_policy, unwanted}

-- The first report about the operator group.
abbrev reported : OperatorPolicy
reported = (update_status new_policy 5 (matches_cond operator_group) []).0

reported_states : map (λ c. c.status) reported.status.conditions ≡ "False" ∷ "True" ∷ []
unfolding update_status matches_cond sort_by insert_by is_must_not_have
reported_states = refl

-- The same report again is no change.
nothing_new : (update_status reported 9 (matches_cond operator_group) []).1 ≡ false
unfolding update_status matches_cond sort_by insert_by is_must_not_have
nothing_new = refl

update_status-IsConsistent_example : IsConsistent reported
update_status-IsConsistent_example =
    update_status-IsConsistent new_policy 5 (matches_cond operator_group) [] tt

update_status_unreported_example :
    let after = (update_status reported 9 (matches_cond operator_group) []).0 in
    (after.status.compliance_state ≡ reported.status.compliance_state)
    × (after.status.related_objects ≡ reported.status.related_objects)
    × (reported.generation ≡ reported.status.observed_generation)
    × Agree after.status.conditions reported.status.conditions
update_status_unreported_example =
    update_status_unreported reported 9 (matches_cond operator_group) []
      update_status-IsConsistent_example nothing_new

wanted : is_must_have "musthave" ≡ true
unfolding is_must_have
wanted = refl

not_unwanted : is_must_not_have "musthave" ≡ false
unfolding is_must_not_have
not_unwanted = refl

abbrev operators : CatalogName
operators = record { name = "community"; namespace = "marketplace" }

handle_catalog_source-HasStatus_example :
    (c : Condition) × (o : RelatedObject) × (handle_catalog_source new_policy 5
        (some operators)
        catalog_missing
      ≡ updated_to (update_status new_policy 5 c (o ∷ [])))
    × ((o.object.name ≡ "community") × (o.object.namespace ≡ "marketplace"))
    × (HasStatus
          (cond_at
            (handle_catalog_source new_policy 5
              (some operators)
              catalog_missing).policy.status.conditions
            catalog_src_condition_type)
          "False"
        ↔ (o.compliant ≡ "Compliant"))
    × ((o.compliant ≡ "Compliant")
        ↔ (((true || true) ≡ false) ⊎ (◌≡◌ {A = String} "Compliant" "Compliant")))
handle_catalog_source-HasStatus_example =
    handle_catalog_source-HasStatus new_policy 5 operators catalog_missing true true tt not_unwanted
      refl

abbrev none_there : String → String → Bool → Bool × FoundDeployment
none_there namespace name w = (w, deployment_missing)

handle_deployment-missing_example :
    let csv : CsvDeployments = record { namespace = "n"; deployments = "d" ∷ [] } in
    let related = missing_obj "d" "n" "musthave" "Deployment" "apps/v1" ∷ [] in
    let r = (handle_deployment none_there new_policy 5 (some csv) true).1 in
    (r.policy
      ≡ (update_status new_policy 5 (build_deployment_cond "NonCompliant" false []) related).0)
    × All (λ (x : RelatedObject). x.compliant ≡ "NonCompliant") related
    × HasStatus (cond_at r.policy.status.conditions deployment_condition_type) "True"
handle_deployment-missing_example =
    handle_deployment-missing none_there new_policy 5 "n" (λ name w. refl) ("d" ∷ []) true tt wanted
      not_unwanted

abbrev version : String → Object
version name = record {
  kind = "ClusterServiceVersion";
  group_version = "operators.coreos.com/v1alpha1";
  name = name;
  namespace = "n";
  uid = name;
}

-- A cluster that notes the objects whose deletion is asked for.
abbrev noting : Remover (List Object)
noting = record { delete = λ o w. (w ++ o ∷ [], none); watch = λ o w. (w, none) }

noting-Notes : Notes noting (λ w. w)
noting-Notes = record { deletes = λ o w. refl; watches = λ o w. refl }

abbrev two_versions : List Found
two_versions =
    record { object = version "old"; deleting = true }
    ∷ record { object = version "new"; deleting = false }
    ∷ []

all_done : (remove_each noting two_versions []).1.ended ≡ all_handled
unfolding remove_each
all_done = refl

one_deleting : (remove_each noting two_versions []).1.any_already_deleting ≡ true
unfolding remove_each
one_deleting = refl

remove_each_lem_example :
    ((remove_each noting two_versions []).0 ≡ version "new" ∷ [])
    × ((remove_each noting two_versions []).1.related ≡ map handled_obj two_versions)
    × ((remove_each noting two_versions []).1.any_already_deleting ≡ true)
remove_each_lem_example = remove_each_lem noting (λ w. w) noting-Notes two_versions [] all_done

enforces : is_inform "enforce" ≡ false
unfolding is_inform
enforces = refl

removes : is_keep (apply_defaults unwanted.spec.removal_behavior).csvs ≡ false
unfolding is_keep apply_defaults
removes = refl

mustnothave_csv_again_example :
    (mustnothave_csv noting unwanted 5 two_versions "n" []).1.changed ≡ true
mustnothave_csv_again_example =
    mustnothave_csv_again noting unwanted 5 (record { object = version "old"; deleting = true })
      (record { object = version "new"; deleting = false } ∷ []) "n" [] tt enforces removes all_done
      one_deleting

-- A policy that approves one version, and a subscription that has installed it.
abbrev approving : OperatorPolicy
approving = record new_policy { spec = record (new_policy.spec) { versions = "new" ∷ [] } }

abbrev installing : Subscription
installing = record { name = "s"; namespace = "n"; installed_csv = "new"; starting_csv = "" }

abbrev csv_in : String → String → Csv
csv_in name phase = record {
  object = version name;
  phase = phase;
  reason = "InstallSucceeded";
  message = "";
}

abbrev two_csvs : List (Csv × Bool)
two_csvs = (csv_in "old" "Replacing", true) ∷ (csv_in "new" "Succeeded", false) ∷ []

abbrev both_listed : Subscription → List Object → List Object × CsvListing
both_listed sub w = (w, csvs_listed (map listed_of two_csvs))

handle_csv-IsGood_example :
    (r : CsvResponse) × (handle_csv noting approving 5 both_listed (some installing) []
      ≡ ([], some r))
    × (r.found_csv ≡ some (csv_in "new" "Succeeded"))
    × ((r.response.err ≡ none)
        × (HasStatus (cond_at r.response.policy.status.conditions csv_condition_type) "True"
            ↔ IsGood approving installing r.found_csv))
handle_csv-IsGood_example =
    handle_csv-IsGood noting approving 5 both_listed installing tt [] [] two_csvs not_unwanted refl
      (refl, (refl, tt))
