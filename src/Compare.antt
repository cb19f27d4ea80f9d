-- ===== src/Compare.antt =====
-- Comparing a merged value with the one on the cluster: `equalObjWithSort`, `checkFieldsWithSort`
-- and `checkListsMatch` of controllers/configurationpolicy_utils.go. The quantities of the module
-- k8s.io/apimachinery/pkg/api/resource (`ParseQuantity` and `Equal`) are parameters.
pub mod Reflexive
pub mod Tests
use config_policy_controller.Prelude.{
  ℕ, String, Bool, true, false, not, ◌&&◌, ◌||◌, Option, none, some, List, [], ◌∷◌, length, ltb,
  ◌==◌, if◌then◌else◌,
}
use config_policy_controller.Prelude.Text.{str_eq, str_ltb}
use config_policy_controller.Prelude.Sort.{sort_by, insert_by}
use config_policy_controller.Json.{
  Value, null, nil_map, bool, num, str, arr, obj, Items, nil, cons, Fields, end, field, items,
  count, lookup, or_null, zero_of,
}
use config_policy_controller.Json.Print.{sprint, sort_and_sprint}

abbrev pub is_null : Value → Bool
is_null null = true
is_null _ = false

abbrev pub sprint_eq : Value → Value → Bool
sprint_eq v w = str_eq (sprint v) (sprint w)

-- The default case of `checkFieldsWithSort`: an omitted value counts as the zero of the other's type.
abbrev pub leaf_matches : Value → Value → Bool
leaf_matches m o = if is_null o && not (is_null m) then sprint_eq (zero_of m) m else sprint_eq o m

-- The values sorted as `checkListsMatch` sorts them.
abbrev pub sorted_by_print : List Value → List Value
sorted_by_print = sort_by (λ v w. str_ltb (sort_and_sprint v) (sort_and_sprint w))

-- A value of the second list, as its sort key and its comparison with a value of the first.
abbrev pub Check : Type 0
Check = String × (Value → Bool)

abbrev pub check_less : Check → Check → Bool
check_less a b = str_ltb a.0 b.0

-- The loop over the two sorted lists.
unfoldable pub all_match : List Value → List Check → Bool
all_match [] [] = true
all_match (o ∷ os) (c ∷ cs) = c.1 o && all_match os cs
all_match _ _ = false

-- `checkListsMatch`, with the second list's values as their comparisons.
unfoldable pub lists_match : List Value → List Check → Bool
unfolding all_match sort_by insert_by
lists_match old checks =
    if not (length checks == length old)
    then false
    else all_match (sorted_by_print old) (sort_by check_less checks)

module _ {Quantity : Type 0} (parse_quantity : String → Option Quantity)
    (quantity_equal : Quantity → Quantity → Bool) where
  -- The string case of `checkFieldsWithSort`.
  unfoldable pub string_matches : String → Option Value → Bool
  string_matches m old = elim (parse_quantity m) [
    | none ↦ elim old [ none ↦ false | some o ↦ str_eq (sprint o) m ]
    | some m_qty ↦ elim old [
      | some (str o) ↦ elim (parse_quantity o) [
        | none ↦ false
        | some o_qty ↦ quantity_equal o_qty m_qty
      ]
      | _ ↦ false
    ]
  ]

  unfoldable mutual
    unfolding string_matches lists_match

    -- The body of the loop of `checkFieldsWithSort`: a merged value and what the old map has.
    pub value_matches : Value → Option Value → Bool → Bool
    value_matches (obj mf) old zero_equals_nil = elim old [
      | some (obj of) ↦
          if ltb (count mf) (count of) then false else fields_match mf of zero_equals_nil
      | _ ↦ zero_equals_nil && count mf == 0
    ]
    value_matches (arr ms) old zero_equals_nil = elim old [
      | some (arr os) ↦
          not (
            not (length (items ms) == length (items os))
            || not (lists_match (items os) (checks ms)))
      | _ ↦ length (items ms) == 0
    ]
    value_matches nil_map old zero_equals_nil = elim old [
      | some (obj of) ↦ if ltb 0 (count of) then false else true
      | _ ↦ zero_equals_nil
    ]
    value_matches (str m) old zero_equals_nil = string_matches m old
    value_matches null old zero_equals_nil = leaf_matches null (or_null old)
    value_matches (bool b) old zero_equals_nil = leaf_matches (bool b) (or_null old)
    value_matches (num n) old zero_equals_nil = leaf_matches (num n) (or_null old)

    -- The loop of `checkFieldsWithSort`.
    pub fields_match : Fields → Fields → Bool → Bool
    fields_match end old zero_equals_nil = true
    fields_match (field k m fs) old zero_equals_nil =
        value_matches m (lookup k old) zero_equals_nil && fields_match fs old zero_equals_nil

    -- The body of the loop of `checkListsMatch`: a value of the second list and one of the first.
    pub nested_matches : Value → Value → Bool
    nested_matches (obj mf) o = elim o [
      | obj of ↦ if ltb (count mf) (count of) then false else fields_match mf of true
      | other ↦ sprint_eq other (obj mf)
    ]
    nested_matches nil_map o = elim o [
      | obj of ↦ if ltb 0 (count of) then false else true
      | other ↦ sprint_eq other nil_map
    ]
    nested_matches null o = elim o [ obj of ↦ false | other ↦ sprint_eq other null ]
    nested_matches (bool b) o = elim o [ obj of ↦ false | other ↦ sprint_eq other (bool b) ]
    nested_matches (num n) o = elim o [ obj of ↦ false | other ↦ sprint_eq other (num n) ]
    nested_matches (str s) o = elim o [ obj of ↦ false | other ↦ sprint_eq other (str s) ]
    nested_matches (arr ms) o = elim o [ obj of ↦ false | other ↦ sprint_eq other (arr ms) ]

    pub checks : Items → List Check
    checks nil = []
    checks (cons m ms) = (sort_and_sprint m, nested_matches m) ∷ checks ms

  -- `checkFieldsWithSort`
  unfoldable pub check_fields_with_sort : Fields → Fields → Bool → Bool
  unfolding fields_match
  check_fields_with_sort mf of zero_equals_nil =
      if ltb (count mf) (count of) then false else fields_match mf of zero_equals_nil

  -- `checkListsMatch`
  unfoldable pub check_lists_match : Items → Items → Bool
  unfolding lists_match checks
  check_lists_match old merged = lists_match (items old) (checks merged)

  -- The default case of `equalObjWithSort`.
  unfoldable pub leaf_equal : Value → Value → Bool → Bool
  leaf_equal m o zero_equals_nil =
      if zero_equals_nil && (is_null o && not (is_null m))
      then sprint_eq (zero_of m) m
      else if zero_equals_nil && (is_null m && not (is_null o))
      then sprint_eq (zero_of o) o
      else sprint_eq m o

  -- `equalObjWithSort`. It hands the two lists to `checkListsMatch` the other way round than
  -- `checkFieldsWithSort` does.
  unfoldable pub equal_obj_with_sort : Value → Value → Bool → Bool
  unfolding check_fields_with_sort check_lists_match leaf_equal
  equal_obj_with_sort (obj mf) o zero_equals_nil = elim o [
    | obj of ↦ check_fields_with_sort mf of zero_equals_nil
    | _ ↦ false
  ]
  equal_obj_with_sort nil_map o zero_equals_nil = elim o [
    | obj of ↦ check_fields_with_sort end of zero_equals_nil
    | _ ↦ false
  ]
  equal_obj_with_sort (arr ms) o zero_equals_nil = elim o [
    | arr os ↦ check_lists_match ms os
    | other ↦ length (items ms) == 0 && is_null other
  ]
  equal_obj_with_sort m o zero_equals_nil = leaf_equal m o zero_equals_nil
