-- ===== src/Keys/Tests.antt =====
-- Runs of the comparison key by key, and its theorems at concrete objects.
use config_policy_controller.Prelude.{
  String, Bool, ◌≡◌, ◌↔◌, refl, eq_refl, true, false, Option, none,
}
use config_policy_controller.Prelude.Text.{str_eq}
use config_policy_controller.Policy.{is_must_only_have}
use config_policy_controller.Json.{bool, str, obj, Fields, end, field}
use config_policy_controller.Json.Maps.{AllFields}
use config_policy_controller.Json.Print.{sprint, sort_and_sprint}
use config_policy_controller.Compare.{equal_obj_with_sort}
use config_policy_controller.Compare.Tests.{no_quantities}
use config_policy_controller.Merge.{compare_specs}
use config_policy_controller.Keys.{
  handle_single_key, handled, Unstructured, missing, Handled, finished, handle_keys,
}
use config_policy_controller.Keys.Steps.{single}
use config_policy_controller.Merge.Satisfied.{AllSatisfied}
use config_policy_controller.Keys.Single.{handle_single_key-Satisfied}
use config_policy_controller.Keys.Update.{IsUpToDate, differs, handle_keys-IsUpToDate}

-- Accessors for objects that are config maps without labels and annotations.
abbrev pub plain : Unstructured
plain = record {
  get_kind = λ o. "ConfigMap";
  get_api_version = λ o. "v1";
  get_name = λ o. "c";
  is_namespace = λ o. false;
  nested_string_map = λ o k. missing;
  set_annotations = λ m o. o;
  set_labels = λ m o. o;
}

abbrev pub no_decoding : String → Option String
no_decoding s = none

abbrev wanted : Fields
wanted = field "kind" (str "ConfigMap") (field "data" (obj (field "a" (str "1") end)) end)

abbrev existing : Fields
existing = field "kind" (str "ConfigMap") (
    field "data" (obj (field "a" (str "1") (field "b" (str "2") end)))
      (field "immutable" (bool true) end))

abbrev unchanged : Handled
unchanged = record {
  existing_obj = existing;
  throw_spec_violation = false;
  update_needed = false;
  status_mismatch = false;
}

abbrev replaced : Handled
replaced = record {
  existing_obj = field "kind" (str "ConfigMap") (field "data" (obj (field "a" (str "1") end)) end);
  throw_spec_violation = false;
  update_needed = true;
  status_mismatch = false;
}

is_satisfied :
    handle_keys plain no_decoding no_quantities str_eq wanted existing existing "musthave" ""
    ≡ finished unchanged
unfolding handle_keys equal_obj_with_sort compare_specs sprint sort_and_sprint
is_satisfied = refl

is_stripped :
    handle_keys plain no_decoding no_quantities str_eq wanted existing existing "mustonlyhave" ""
    ≡ finished replaced
unfolding handle_keys equal_obj_with_sort compare_specs sprint sort_and_sprint
is_stripped = refl

loose : is_must_only_have "musthave" ≡ false
unfolding is_must_only_have
loose = refl

strict : is_must_only_have "mustonlyhave" ≡ true
unfolding is_must_only_have
strict = refl

handle_keys-IsUpToDate_example :
    IsUpToDate unchanged
    ↔ AllFields
        (λ k v.
          differs (single plain no_decoding no_quantities str_eq wanted existing "musthave" "" k)
          ≡ false)
        wanted
handle_keys-IsUpToDate_example =
    handle_keys-IsUpToDate plain no_decoding no_quantities str_eq wanted existing "musthave" ""
      existing unchanged loose is_satisfied

abbrev wanted_data : Fields
wanted_data = field "a" (str "1") end

abbrev existing_data : Fields
existing_data = field "a" (str "1") (field "b" (str "2") end)

handle_single_key-Satisfied_example :
    (u : Bool) × (handle_single_key plain no_decoding no_quantities str_eq "data" wanted existing
        "musthave" false
      ≡ handled u
          (obj (compare_specs no_quantities str_eq "musthave" false wanted_data existing_data)))
    × ((u ≡ false) ↔ AllSatisfied no_quantities str_eq "musthave" false wanted_data existing_data)
handle_single_key-Satisfied_example =
    handle_single_key-Satisfied plain no_decoding no_quantities str_eq (λ q. eq_refl q) "data"
      wanted existing "musthave" wanted_data existing_data refl loose refl refl
      ((refl, tt), (tt, tt)) ((refl, (refl, tt)), (tt, (tt, tt)))
