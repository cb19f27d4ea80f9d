-- ===== src/Merge/Tests.antt =====
-- Runs of the merging functions, and the theorems at concrete values.
use config_policy_controller.Prelude.{
  String, ◌≡◌, ◌↔◌, ◌+◌, refl, eq_refl, true, false, List, ◌++◌, Option, none, All, In, length,
}
use config_policy_controller.Prelude.Text.{str_eq}
use config_policy_controller.Json.{
  Value, nil_map, bool, num, str, arr, obj, Items, nil, cons, Fields, end, field, items, lookup,
}
use config_policy_controller.Json.Print.{sprint, sort_and_sprint}
use config_policy_controller.Policy.{is_must_only_have}
use config_policy_controller.Compare.{equal_obj_with_sort}
use config_policy_controller.Merge.{Slot, currents, merge_fields, merge_arrays, compare_specs}
use config_policy_controller.Merge.Lookup.{merged_at, lookup-merge_fields}
use config_policy_controller.Merge.Satisfied.{AllSatisfied, compare_specs-Satisfied}
use config_policy_controller.Merge.Filling.{originals, written_count}
use config_policy_controller.Merge.Arrays.{IsFrom, IsLeft, merge_arrays_lem}

abbrev plain : String → Option String
plain s = none

str_eq_refl : (s : String) → str_eq s s ≡ true
str_eq_refl s = eq_refl s

abbrev template : Fields
template = field "spec" (obj (field "replicas" (num "3") end)) end

abbrev deployed : Fields
deployed =
    field "spec" (obj (field "paused" (bool false) (field "replicas" (num "3") end)))
      (field "status" (obj end) end)

not_only : is_must_only_have "musthave" ≡ false
unfolding is_must_only_have
not_only = refl

merges_into_existing :
    merge_fields plain str_eq "musthave" false template deployed
    ≡ field "spec"
        (obj (field "replicas" (num "3") (field "paused" (bool false) end)))
        (field "status" (obj end) end)
unfolding merge_fields
merges_into_existing = refl

appends_what_is_missing :
    merge_arrays plain str_eq "musthave" false
      (cons (str "a") nil)
      (cons (str "b") (cons (str "a") nil))
    ≡ cons (str "a") (cons (str "b") nil)
unfolding merge_arrays equal_obj_with_sort sprint
appends_what_is_missing = refl

compare_specs-Satisfied_example :
    (equal_obj_with_sort plain str_eq
        (obj (compare_specs plain str_eq "musthave" false template deployed))
        (obj deployed)
        false
      ≡ true)
    ↔ AllSatisfied plain str_eq "musthave" false template deployed
compare_specs-Satisfied_example =
    compare_specs-Satisfied plain str_eq "musthave" false str_eq_refl template deployed not_only
      ((refl, tt), (((refl, tt), (tt, tt)), tt))
      ((refl, (refl, tt)), (((refl, (refl, tt)), (tt, (tt, tt))), ((tt, tt), tt)))

lookup-merge_fields_example :
    lookup "spec" (merge_fields plain str_eq "musthave" false template deployed)
    ≡ merged_at plain str_eq "musthave" false (lookup "spec" template) (lookup "spec" deployed)
lookup-merge_fields_example =
    lookup-merge_fields plain str_eq "musthave" false "spec" template deployed (refl, (refl, tt))

abbrev wanted : Items
wanted = cons (str "a") (cons (obj (field "name" (str "x") end)) nil)

abbrev present : Items
present = cons (obj (field "name" (str "x") (field "k" (num "1") end))) (cons (str "b") nil)

merge_arrays_lem_example :
    (ss : List Slot) × (extra : List Value) × (items
        (merge_arrays plain str_eq "musthave" false wanted present)
      ≡ currents ss ++ extra)
    × (originals ss ≡ items wanted)
    × All (IsFrom plain str_eq "musthave" false (items present)) ss
    × All (λ v. In v (items present)) extra
    × All (IsLeft plain str_eq "musthave" false ss) extra
    × (written_count ss + length extra ≡ length (items present))
merge_arrays_lem_example = merge_arrays_lem plain str_eq "musthave" false wanted present not_only

-- Against an empty map, a text becomes the nil map, which compares equal to it.
keeps_no_text :
    (merge_arrays plain str_eq "musthave" false (cons (str "a") nil) (cons (obj end) nil)
      ≡ cons nil_map nil)
    × (equal_obj_with_sort plain str_eq (arr (cons nil_map nil)) (arr (cons (obj end) nil)) false
        ≡ true)
unfolding merge_arrays equal_obj_with_sort sprint sort_and_sprint
keeps_no_text = (refl, refl)
