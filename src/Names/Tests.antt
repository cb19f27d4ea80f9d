-- ===== src/Names/Tests.antt =====
-- Runs of the matching of objects, and its theorem at concrete objects.
use config_policy_controller.Prelude.{
  ℕ, String, ◌≡◌, refl, false, Option, none, some, [], ◌∷◌, map, keep,
}
use config_policy_controller.Prelude.Text.{str_eq}
use config_policy_controller.Json.{Value, str, arr, obj, nil, cons, Fields, end, field, lookup}
use config_policy_controller.Json.Print.{sprint, sort_and_sprint}
use config_policy_controller.Compare.{equal_obj_with_sort}
use config_policy_controller.Compare.Tests.{no_quantities}
use config_policy_controller.Merge.{merge_arrays, write_arrays, compare_specs}
use config_policy_controller.Keys.{Unstructured, missing}
use config_policy_controller.Names.{build_name_list}
use config_policy_controller.Names.Listed.{is_match, build_name_list_lem}

-- Objects that hold their name under "id".
abbrev by_id : Unstructured
by_id = record {
  get_kind = λ o. "ConfigMap";
  get_api_version = λ o. "v1";
  get_name = λ o. elim (lookup "id" o) [ some (str n) ↦ n | _ ↦ "" ];
  is_namespace = λ o. false;
  nested_string_map = λ o k. missing;
  set_annotations = λ m o. o;
  set_labels = λ m o. o;
}

abbrev no_decoding : String → Option String
no_decoding s = none

-- Lists without spare capacity.
abbrev no_spare : String → ℕ
no_spare key = 0

abbrev colored : String → String → Fields
colored n c = field "id" (str n) (field "data" (obj (field "color" (str c) end)) end)

abbrev red : Fields
red = field "kind" (str "ConfigMap") (field "data" (obj (field "color" (str "red") end)) end)

lists_the_red :
    build_name_list by_id no_decoding no_quantities str_eq no_spare "musthave" red
      (colored "a" "red" ∷ colored "b" "blue" ∷ [])
    ≡ some ("a" ∷ [])
unfolding build_name_list equal_obj_with_sort compare_specs sprint sort_and_sprint
lists_the_red = refl

build_name_list_lem_example :
    "a" ∷ []
    ≡ map
        (λ (object : Fields). by_id.get_name object)
        (keep
          (is_match by_id no_decoding no_quantities str_eq no_spare "musthave" red red)
          (colored "a" "red" ∷ colored "b" "blue" ∷ []))
build_name_list_lem_example =
    build_name_list_lem by_id no_decoding no_quantities str_eq no_spare "musthave" red refl
      (colored "a" "red" ∷ colored "b" "blue" ∷ []) ("a" ∷ []) lists_the_red

-- A template of a role: one rule for pods.
abbrev rule : Fields → Value
rule more = obj (field "res" (str "pods") more)

abbrev role : String → Value → Fields
role n r = field "id" (str n) (field "rules" (arr (cons r nil)) end)

abbrev wanted_role : Fields
wanted_role = field "rules" (arr (cons (rule end) nil)) end

-- Each of the two objects agrees with the template on its own, but the comparison with the first one
-- puts the verb of its rule into the template.
lists_each :
    (build_name_list by_id no_decoding no_quantities str_eq no_spare "musthave" wanted_role
        (role "b" (rule end) ∷ [])
      ≡ some ("b" ∷ []))
    × (build_name_list by_id no_decoding no_quantities str_eq no_spare "musthave" wanted_role
          (role "a" (rule (field "verb" (str "get") end)) ∷ role "b" (rule end) ∷ [])
        ≡ some ("a" ∷ []))
unfolding build_name_list equal_obj_with_sort merge_arrays write_arrays sprint sort_and_sprint
lists_each = (refl, refl)
