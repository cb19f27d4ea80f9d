-- ===== src/Enforce/Tests.antt =====
-- Runs of the handling of one object, and its theorems at concrete clusters.
use config_policy_controller.Prelude.{◌≡◌, refl, Bool, true, false, ◌&&◌, none, some, [], ◌∷◌}
use config_policy_controller.Prelude.Sort.{sort_by, insert_by}
use config_policy_controller.Policy.{is_enforce}
use config_policy_controller.Enforce.{
  SingleObject, CreateError, created, refused, Requests, accepted, not_found, Checked,
  properties_of, identifier_str, awaits_namespace, handle_single_obj,
}
use config_policy_controller.Enforce.Verdict.{IsLast, is_satisfied, handle_single_obj-IsLast}
use config_policy_controller.Enforce.Created.{handle_single_obj_uncreated}

abbrev no_namespace : CreateError
no_namespace = record {
  text = "namespaces \"n\" not found";
  is_status = true;
  reason = "NotFound";
  details_kind = some "namespaces";
  first_cause = none;
}

-- A cluster that is `true` once the object was created; nothing else is there.
abbrev pub willing : Requests Bool
willing = record {
  create = λ w. (true, created "u");
  delete = λ w. (false, not_found "gone");
  watch_namespace = λ w. (w, none);
}

abbrev unwilling : Requests Bool
unwilling = record {
  create = λ w. (w, refused no_namespace);
  delete = λ w. (w, accepted);
  watch_namespace = λ w. (w, none);
}

abbrev pub matching : Bool → Bool × Checked
matching w = (
  w,
  record {
    throw_spec_violation = false;
    msg = "";
    diff = "";
    tried_update = false;
    updated_uid = none;
  },
)

abbrev pod : Bool → SingleObject
pod wanted = record {
  resource = "pods";
  namespaced = true;
  name = "a";
  namespace = "n";
  using_watch = true;
  should_exist = wanted;
  has_status = false;
}

names_in_order : identifier_str ("b" ∷ "a" ∷ []) "n" ≡ "[a, b] in namespace n"
unfolding identifier_str sort_by insert_by
names_in_order = refl

creates_the_object :
    (handle_single_obj willing matching (pod true) "enforce" none (false, false, "") [] false).0
    ≡ true
unfolding handle_single_obj is_enforce
creates_the_object = refl

handle_single_obj-IsLast_example :
    IsLast
      (is_satisfied willing matching (pod true) "enforce" none (false, false, "") false)
      (handle_single_obj willing matching
        (pod true)
        "enforce"
        none
        (false, false, "")
        []
        false).1.0.events
handle_single_obj-IsLast_example =
    handle_single_obj-IsLast willing matching (pod true) "enforce" none (false, false, "") [] false

informs : is_enforce "inform" ≡ false
unfolding is_enforce
informs = refl

enforces : is_enforce "enforce" ≡ true
unfolding is_enforce
enforces = refl

waits : ((true && true) && awaits_namespace (pod true) no_namespace) ≡ true
unfolding awaits_namespace
waits = refl

handle_single_obj_uncreated_example :
    let r =
      (handle_single_obj unwilling matching
        (pod true)
        "enforce"
        none
        (false, false, "")
        []
        false).1 in
    IsLast false r.0.events × (r.0.enforcement_err ≡ none) × (r.1 ≡ some (properties_of true "" ""))
handle_single_obj_uncreated_example =
    handle_single_obj_uncreated unwilling matching (pod true) "enforce" (false, false, "") [] false
      false false no_namespace refl enforces refl waits refl
