-- ===== src/Compare/Tests.antt =====
-- Runs of the comparisons on small values.
use config_policy_controller.Prelude.{String, ◌≡◌, refl, eq_refl, true, false, Option, none}
use config_policy_controller.Prelude.Text.{str_eq}
use config_policy_controller.Json.{Value, null, bool, num, str, arr, obj, nil, cons, end, field}
use config_policy_controller.Json.Print.{sprint, sort_and_sprint}
use config_policy_controller.Compare.{equal_obj_with_sort}
use config_policy_controller.Compare.Reflexive.{equal_obj_with_sort_refl}

-- A parser that takes every text for a plain string.
abbrev pub no_quantities : String → Option String
no_quantities s = none

lists_in_any_order :
    equal_obj_with_sort no_quantities str_eq
      (obj (field "a" (arr (cons (str "x") (cons (obj (field "k" (num "1") end)) nil))) end))
      (obj (field "a" (arr (cons (obj (field "k" (num "1") end)) (cons (str "x") nil))) end))
      false
    ≡ true
unfolding equal_obj_with_sort sprint sort_and_sprint
lists_in_any_order = refl

other_number :
    equal_obj_with_sort no_quantities str_eq
      (obj (field "a" (num "1") end))
      (obj (field "a" (num "2") end))
      false
    ≡ false
unfolding equal_obj_with_sort sprint sort_and_sprint
other_number = refl

omitted_false :
    equal_obj_with_sort no_quantities str_eq (obj (field "a" (bool false) end)) (obj end) false
    ≡ true
unfolding equal_obj_with_sort sprint sort_and_sprint
omitted_false = refl

omitted_map :
    equal_obj_with_sort no_quantities str_eq (obj (field "a" (obj end) end)) (obj end) false ≡ false
unfolding equal_obj_with_sort sprint sort_and_sprint
omitted_map = refl

str_eq_refl : (s : String) → str_eq s s ≡ true
str_eq_refl s = eq_refl s

abbrev pub pod : Value
pod = obj (
    field "kind" (str "Pod") (
      field "spec"
        (obj (field "ports" (arr (cons (num "80") (cons (obj (field "p" null end)) nil))) end))
        end))

equal_obj_with_sort_refl_example : equal_obj_with_sort no_quantities str_eq pod pod false ≡ true
equal_obj_with_sort_refl_example =
    equal_obj_with_sort_refl no_quantities str_eq str_eq_refl pod false
      ((refl, (refl, tt)), (tt, (((refl, tt), ((tt, (((refl, tt), (tt, tt)), tt)), tt)), tt)))
