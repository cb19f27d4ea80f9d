-- ===== src/Operator/Removal.antt =====
-- The removal of what an operator left: `mustnothaveCSV`, and `handleCRDs`, of
-- controllers/operatorpolicy_controller.go, with the loop over the found objects that both have. The
-- requests are parameters.
use config_policy_controller.Prelude.{
  ℕ, String, Bool, true, false, Option, none, some, List, [], ◌∷◌, map, if◌then◌else◌,
}
use config_policy_controller.Prelude.Text.{◌<>◌}
use config_policy_controller.Policy.{Condition, RelatedObject, is_inform, is_must_have}
use config_policy_controller.Operator.{OperatorPolicy, apply_defaults, is_keep}
use config_policy_controller.Operator.Conds.{
  Kind, cluster_service_version, custom_resource_definition, missing_not_wanted_cond, kept_cond,
  found_not_wanted_cond, deleted_cond, deleting_cond,
}
use config_policy_controller.Operator.Objs.{
  Object, leftover_obj, found_not_wanted_obj, deleting_obj, deleted_obj, matched_obj,
}
use config_policy_controller.Operator.Health.{
  missing_not_wanted_csv_obj, no_crd_cond, no_existing_crd_obj, crd_found_cond,
}
use config_policy_controller.Operator.Status.{update_status, calculate_compliance_condition}
use config_policy_controller.Operator.Response.{Response, updated_to, failing}

-- An object that was found, and whether it is being deleted.
pub record Found : Type 0 where
  pub object : Object
  pub deleting : Bool

-- What a listing gives.
pub data Listing : Type 0 where
  listing_failed : String → Listing
  listed : List Found → Listing

-- The requests: the deletion, and the watch of an object that is being deleted, each with its error.
pub record Remover (World : Type 0) : Type 0 where
  pub delete : Object → World → World × Option String
  pub watch : Object → World → World × Option String

-- How the loop ends: with all objects handled, or at an error.
pub data LoopEnd : Type 0 where
  all_handled : LoopEnd
  watch_error delete_error : String → LoopEnd

-- What the loop makes: the related objects, and whether one of the objects that it came to was being
-- deleted already.
pub record Removed : Type 0 where
  pub related : List RelatedObject
  pub any_already_deleting : Bool
  pub ended : LoopEnd

abbrev pub untouched : List Found → List RelatedObject
untouched objects = map (λ o. found_not_wanted_obj o.object) objects

module _ {World : Type 0} (remover : Remover World) where
  -- After the watch of an object that is being deleted.
  abbrev pub after_watch :
      Found → List Found → World × Option String → World × Removed → World × Removed
  after_watch o os (w, some e) rest = (
    w,
    record {
      related = deleting_obj o.object ∷ untouched os;
      any_already_deleting = true;
      ended = watch_error e;
    },
  )
  after_watch o os (w, none) (w', r) = (
    w',
    record {
      related = deleting_obj o.object ∷ r.related;
      any_already_deleting = true;
      ended = r.ended;
    },
  )

  abbrev pub after_delete :
      Found → List Found → World × Option String → World × Removed → World × Removed
  after_delete o os (w, some e) rest = (
    w,
    record { related = untouched (o ∷ os); any_already_deleting = false; ended = delete_error e },
  )
  after_delete o os (w, none) (w', r) =
      (w', record r { related = deleted_obj o.object ∷ r.related })

  -- The loop over the objects.
  unfoldable pub remove_each : List Found → World → World × Removed
  remove_each [] w = (w, record { related = []; any_already_deleting = false; ended = all_handled })
  remove_each (o ∷ os) w =
      let watched = remover.watch o.object w in
      let gone = remover.delete o.object w in
      let rest = remove_each os (if o.deleting then watched.0 else gone.0) in
      if o.deleting then after_watch o os watched rest else after_delete o os gone rest

  module _ (policy : OperatorPolicy) (now : ℕ) (kind : Kind) (names : List String)
      (watching deleting : String) where
    -- What is reported after the loop, for the policy with the first report, whether that was a
    -- change, and the conditions to emit. The errors are those of watching and of deleting.
    unfoldable pub report_removed :
        OperatorPolicy → Bool → List Condition → List RelatedObject → Bool → LoopEnd → Response
    report_removed reported changed early related any_deleting (watch_error e) = record {
      policy = reported;
      changed = changed;
      early = early;
      err = some (watching <> e);
    }
    report_removed reported changed early related any_deleting (delete_error e) =
        let (again, changed') =
          update_status reported now (found_not_wanted_cond kind names) related in
        record {
          policy = again;
          changed = changed';
          early = if any_deleting then [] else early;
          err = some (deleting <> e);
        }
    report_removed reported changed early related any_deleting all_handled =
        let (again, changed') = update_status reported now (deleted_cond kind names) related in
        if any_deleting
        then updated_to (update_status reported now (deleting_cond kind names) related)
        else record { policy = again; changed = true; early = early; err = none }

    -- The found objects are reported, and removed unless the policy informs.
    unfoldable pub remove_found : List Found → World → World × Response
    unfolding remove_each report_removed
    remove_found objects w =
        let (reported, changed) =
          update_status policy now (found_not_wanted_cond kind names) (untouched objects) in
        let early = if changed then calculate_compliance_condition reported now ∷ [] else [] in
        let (w', r) = remove_each objects w in
        if is_inform policy.spec.remediation_action
        then (w, updated_to (reported, changed))
        else (w', report_removed reported changed early r.related r.any_already_deleting r.ended)

  module _ (policy : OperatorPolicy) (now : ℕ) where
    abbrev pub kept : Kind → List Found → Response
    kept kind objects =
        updated_to
          (update_status policy now (kept_cond kind) (map (λ o. leftover_obj o.object) objects))

    -- `mustnothaveCSV`
    unfoldable pub mustnothave_csv : List Found → String → World → World × Response
    unfolding remove_found apply_defaults is_keep
    mustnothave_csv [] namespace w = (
      w,
      updated_to (
          update_status policy now (missing_not_wanted_cond cluster_service_version)
            (missing_not_wanted_csv_obj namespace ∷ [])),
    )
    mustnothave_csv (o ∷ os) namespace w =
        if is_keep (apply_defaults policy.spec.removal_behavior).csvs
        then (w, kept cluster_service_version (o ∷ os))
        else remove_found policy now cluster_service_version (map (λ x. x.object.name) (o ∷ os))
            "error watching the deleting CSV: " "error deleting ClusterServiceVersion: " (o ∷ os) w

    -- The definitions that the subscription's listing found.
    unfoldable pub handle_found_crds : List Found → World → World × Response
    unfolding remove_found apply_defaults is_keep
    handle_found_crds [] w =
        (w, updated_to (update_status policy now no_crd_cond (no_existing_crd_obj ∷ [])))
    handle_found_crds (o ∷ os) w =
        if is_must_have policy.spec.compliance_type
        then (
          w,
          updated_to
              (update_status policy now crd_found_cond (map (λ x. matched_obj x.object) (o ∷ os))),
        )
        else if is_keep (apply_defaults policy.spec.removal_behavior).crds
        then (w, kept custom_resource_definition (o ∷ os))
        else remove_found policy now custom_resource_definition []
            "error watching the deleting CRD: " "error deleting the CRD: " (o ∷ os) w

    -- `handleCRDs`, for the listing if there is a subscription.
    unfoldable pub handle_crds : Option (World → World × Listing) → World → World × Response
    unfolding handle_found_crds
    handle_crds none w =
        (w, updated_to (update_status policy now no_crd_cond (no_existing_crd_obj ∷ [])))
    handle_crds (some list) w =
        let (w', listing) = list w in
        elim listing [
          | listing_failed e ↦ (w', failing policy ("error listing CRDs: " <> e))
          | listed objects ↦ handle_found_crds objects w'
        ]
