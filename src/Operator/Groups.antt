-- ===== src/Operator/Groups.antt =====
-- The operator groups: what is read of them and requested, with `createWithNamespace` and
-- `isNamespaceNotFound` of controllers/operatorpolicy_controller.go. The requests are parameters, and
-- so is what `mergeObjects` says of a found group. The children handle them.
pub mod Wanted
pub mod Unwanted
pub mod Handling
pub mod Safety
pub mod Tests
use config_policy_controller.Prelude.{
  ℕ, String, Bool, true, false, not, ◌&&◌, ◌||◌, Option, none, some, List, [], ◌∷◌, map, any,
  if◌then◌else◌,
}
use config_policy_controller.Prelude.Text.{str_eq, ◌<>◌}
use config_policy_controller.Policy.{Condition, RelatedObject, is_inform, is_enforce, is_must_have}
use config_policy_controller.Operator.{OperatorPolicy, apply_defaults, is_keep, is_delete_if_unused}
use config_policy_controller.Operator.Conds.{
  operator_group, invalid_causing_unknown_cond, missing_wanted_cond, missing_not_wanted_cond,
  found_not_wanted_cond, created_cond, deleted_cond, deleting_cond, kept_cond, matches_cond,
  mismatch_cond, mismatch_cond_unfixable, updated_cond, op_group_preexisting_cond,
  op_group_too_many_cond,
}
use config_policy_controller.Operator.Objs.{
  Object, missing_wanted_obj, missing_not_wanted_obj, found_not_wanted_obj, created_obj,
  deleted_obj, deleting_obj, matched_obj, mismatched_obj, updated_obj, leftover_obj,
  op_group_too_many_objs,
}
use config_policy_controller.Operator.Status.{update_status, calculate_compliance_condition}
use config_policy_controller.Operator.Response.{Response, updated_to, failing}

-- What is read of an operator group: the prefix for a name that the server generates, whether it has
-- owners, and whether it is being deleted.
pub record OpGroup : Type 0 where
  pub object : Object
  pub generate_name : String
  pub owned : Bool
  pub deleting : Bool

-- What is read of an error of the API server: whether it is that something is not there or is there
-- already, and the kind in its details, if it has any.
pub record ApiError : Type 0 where
  pub text : String
  pub is_not_found : Bool
  pub is_already_exists : Bool
  pub details_kind : Option String

pub data Creation : Type 0 where
  created : Object → Creation
  uncreated : ApiError → Creation

-- What `mergeObjects` says: an error, or whether an update is needed, whether it is to be skipped, and
-- the found group with the wanted one merged into it.
pub data Merging : Type 0 where
  unconvertible unmergeable : String → Merging
  merged : Bool → Bool → OpGroup → Merging

pub data GroupListing : Type 0 where
  groups_failed : String → GroupListing
  groups_listed : List OpGroup → GroupListing

-- The names of the subscriptions in the namespace.
pub data SubListing : Type 0 where
  subs_failed : String → SubListing
  subs_listed : List String → SubListing

-- The requests about operator groups.
pub record Groups (World : Type 0) : Type 0 where
  pub list : String → World → World × GroupListing
  pub list_subs : String → World → World × SubListing
  pub create : Object → World → World × Creation
  pub create_namespace : String → World → World × Option ApiError
  pub merge : OpGroup → World → World × Merging
  pub update : OpGroup → World → World × Option String
  pub delete : Object → World → World × Option String

-- Whether the operator group is as it should be, and what every handler returns.
pub record GroupResponse : Type 0 where
  pub correct : Bool
  pub response : Response

-- `isNamespaceNotFound`
unfoldable pub is_namespace_not_found : ApiError → Bool
is_namespace_not_found e =
    e.is_not_found && (elim (e.details_kind) [ none ↦ false | some k ↦ str_eq k "namespaces" ])

-- A group of the wanted name, or of the wanted prefix if no name is wanted.
unfoldable pub same_group : OpGroup → OpGroup → Bool
same_group desired found =
    str_eq found.object.name desired.object.name
    || (str_eq desired.object.name "" && str_eq found.generate_name desired.generate_name)

module _ {World : Type 0} (groups : Groups World) where
  -- After the namespace was created, or could not be.
  abbrev pub namespace_answered : Object → World × Option ApiError → World × Creation
  namespace_answered object (w, none) = groups.create object w
  namespace_answered object (w, some e) =
      if not e.is_already_exists then (w, uncreated e) else groups.create object w

  abbrev pub creation_answered : Object → World × Creation → World × Creation
  creation_answered object (w, created o) = (w, created o)
  creation_answered object (w, uncreated e) =
      if not (is_namespace_not_found e) || str_eq object.namespace ""
      then (w, uncreated e)
      else namespace_answered object (groups.create_namespace object.namespace w)

  -- `createWithNamespace`
  unfoldable pub create_with_namespace : Object → World → World × Creation
  unfolding is_namespace_not_found
  create_with_namespace object w = creation_answered object (groups.create object w)

abbrev pub failed_after : OperatorPolicy × Bool → List Condition → String → GroupResponse
failed_after (reported, changed) conds text = record {
  correct = false;
  response = record { policy = reported; changed = changed; early = conds; err = some text };
}

module _ (now : ℕ) where
  -- The condition to emit for the first report, if that was a change.
  abbrev pub early : OperatorPolicy × Bool → List Condition
  early (reported, changed) =
      if changed then calculate_compliance_condition reported now ∷ [] else []

  -- The second report, of what was done.
  abbrev pub done : Bool → OperatorPolicy × Bool → Condition → RelatedObject → GroupResponse
  done correct (reported, changed) cond related = record {
    correct = correct;
    response = record {
      policy = (update_status reported now cond (related ∷ [])).0;
      changed = true;
      early = early (reported, changed);
      err = none;
    };
  }

module _ (policy : OperatorPolicy) (now : ℕ) where
  abbrev pub reporting : Bool → Condition → List RelatedObject → GroupResponse
  reporting correct cond related = record {
    correct = correct;
    response = updated_to (update_status policy now cond related);
  }

  abbrev pub too_many : List OpGroup → GroupResponse
  too_many found =
      reporting false op_group_too_many_cond (op_group_too_many_objs (map (λ g. g.object) found))
