-- ===== src/Objects.antt =====
-- The evaluation of one desired object of a template: `handleObjects` of
-- controllers/configurationpolicy_controller.go, on Names, Enforce and Related. The reads of the
-- cluster are parameters, as is what `getMatchingNames` returns.
pub mod Verdict
pub mod Tests
use config_policy_controller.Prelude.{
  ℕ, String, Bool, true, false, not, ◌&&◌, ◌||◌, Option, none, some, List, [], ◌∷◌, ◌++◌, last?,
  length, is_some, ltb, ◌==◌, if◌then◌else◌,
}
use config_policy_controller.Prelude.Text.{str_eq, ◌<>◌}
use config_policy_controller.Policy.{
  ComplianceType, RemediationAction, ObjectProperties, RelatedObject, is_must_not_have,
}
use config_policy_controller.Related.{ScopedGvr, add_related_objects, add_condensed_related_objs}
use config_policy_controller.Enforce.{
  Event, EvalResult, SingleObject, Requests, Checked, event, handle_single_obj,
}

-- The desired object and its template, as far as they are read here, and the policy's settings.
pub record Template : Type 0 where
  pub kind : String
  pub name : String
  pub namespace : String
  pub index : String
  pub compliance_type : ComplianceType
  pub has_status : Bool
  pub remediation : RemediationAction
  pub using_watch : Bool

-- The answer of the watch cache: the error for a resource that cannot be watched, another error, or
-- the UID of the object if there is one.
pub data CacheAnswer : Type 0 where
  unwatchable : String → CacheAnswer
  failed : CacheAnswer
  found : Option String → CacheAnswer

-- The reads: from the cache, and from the API server with the error left out, both by name; what
-- `getMatchingNames` returns; what `alreadyEvaluated` says of the object with a UID.
pub record Reads (World : Type 0) : Type 0 where
  pub from_cache : World → String → CacheAnswer
  pub get : World → String → Option String
  pub matching_names : World → List String × List String
  pub already_evaluated : String → Bool × Bool × String

-- What the first part of `handleObjects` finds: an early return, or the names that match, all
-- names, the existing object if there is one, whether any exists, and the remediation.
pub data Found : Type 0 where
  returned : EvalResult → Found
  looked : List String → List String → Option String → Bool → RemediationAction → Found

unfoldable pub found_cached : Template → CacheAnswer → Found
found_cached t (unwatchable err) = returned (record {
  object_names = t.name ∷ [];
  namespace = t.namespace;
  events =
      event false "unwatchable resource" (
        "Error with object-template at index ["
        <> (t.index <> ("], it may require evaluationInterval to be set: " <> err)))
      ∷ [];
  enforcement_err = none;
})
found_cached t failed = looked (t.name ∷ []) [] none false t.remediation
found_cached t (found existing) = looked (t.name ∷ []) [] existing (is_some existing) t.remediation

-- The names of the objects that match, for a template without a name. Enforcing is not supported.
unfoldable pub found_names : List String → List String → (String → Option String) → Found
found_names [] all_names get = looked [] all_names none false "inform"
found_names (n ∷ []) all_names get = looked (n ∷ []) all_names (get n) (is_some (get n)) "inform"
found_names (n ∷ m ∷ ns) all_names get = looked (n ∷ m ∷ ns) all_names none true "inform"

module _ {World : Type 0} (reads : Reads World) where
  unfoldable pub look : Template → World → Found
  unfolding found_cached found_names
  look t w =
      if not (str_eq t.name "")
      then (if t.using_watch
          then found_cached t (reads.from_cache w t.name)
          else looked (t.name ∷ []) [] (reads.get w t.name) (is_some (reads.get w t.name))
              t.remediation)
      else if not (str_eq t.kind "")
      then found_names (reads.matching_names w).0 (reads.matching_names w).1 (reads.get w)
      else looked [] [] none true t.remediation

-- The event for a template without a name, and whether the related objects are condensed.
unfoldable pub unnamed_event : Template → Bool → List String → Bool → Event × Bool
unnamed_event t should_exist all_names exists =
    if should_exist
    then if exists
      then (event true "Resource found as expected" "", false)
      else if not (str_eq t.kind "") && (str_eq t.name "" && ltb 0 (length all_names))
      then (event false "Resource found but does not match" "", true)
      else (event false "Resource not found but should exist" "", true)
    else if exists
    then (event false "Resource found but should not exist" "", false)
    else (event true "Resource not found as expected" "", true)

abbrev pub single_object : Template → ScopedGvr → String → SingleObject
single_object t gvr name = record {
  resource = gvr.resource;
  namespaced = gvr.namespaced;
  name = name;
  namespace = t.namespace;
  using_watch = t.using_watch;
  should_exist = not (is_must_not_have t.compliance_type);
  has_status = t.has_status;
}

abbrev pub Outcome : Type 0
Outcome = List RelatedObject × EvalResult

-- The related object of a single object, from the last event.
unfoldable pub related_single :
    Template → ScopedGvr → EvalResult → Option ObjectProperties → List RelatedObject
unfolding add_related_objects
related_single t gvr result props = elim (last? result.events) [
  | none ↦ []
  | some e ↦
      add_related_objects e.compliant gvr t.kind t.namespace result.object_names e.reason props
]

-- The result for any number of names but one.
unfoldable pub handle_unnamed : Template → ScopedGvr → List String → List String → Bool → Outcome
unfolding unnamed_event add_related_objects
handle_unnamed t gvr names all_names exists =
    let (e, condensed) =
      unnamed_event t (not (is_must_not_have t.compliance_type)) all_names exists in
    (
      (if condensed
          then add_condensed_related_objs gvr e.compliant t.kind t.namespace e.reason
          else add_related_objects e.compliant gvr t.kind t.namespace names e.reason none),
      record { object_names = names; namespace = ""; events = e ∷ []; enforcement_err = none },
    )

module _ {World : Type 0} (reads : Reads World) (requests : Requests World)
    (check_and_update_resource : World → World × Checked) (related : List RelatedObject) where
  unfoldable pub handle_found : Template → ScopedGvr → Found → World → World × Outcome
  unfolding handle_unnamed related_single handle_single_obj
  handle_found t gvr (returned result) w = (w, ([], result))
  handle_found t gvr (looked [] all_names existing exists remediation) w =
      (w, handle_unnamed t gvr [] all_names exists)
  handle_found t gvr (looked (n ∷ []) all_names existing exists remediation) w =
      let evaluated : Bool × Bool × String = elim existing [
        | none ↦ (false, false, "")
        | some uid ↦ reads.already_evaluated uid
      ] in
      let (w', (result, props)) =
        handle_single_obj requests check_and_update_resource (single_object t gvr n) remediation
          existing evaluated related w in
      (w', (related_single t gvr result props, result))
  handle_found t gvr (looked (n ∷ m ∷ ns) all_names existing exists remediation) w =
      (w, handle_unnamed t gvr (n ∷ m ∷ ns) all_names exists)

  -- `handleObjects`
  unfoldable pub handle_objects : Template → ScopedGvr → World → World × Outcome
  unfolding handle_found look
  handle_objects t gvr w = handle_found t gvr (look reads t w) w
