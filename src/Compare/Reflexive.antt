-- ===== src/Compare/Reflexive.antt =====
-- A value compares equal to itself: an object that is as desired needs no update.
use config_policy_controller.Prelude.{
  String, ◌≡◌, refl, Bool, true, Option, none, some, List, [], ◌∷◌, map, length-map, length, ◌==◌,
  arith, eq_iff, eq_refl, All, Option-cases, inl, inr,
}
use config_policy_controller.Prelude.Sort.{sort_by-map, All-sort_by}
use config_policy_controller.Json.{
  Value, null, nil_map, bool, num, str, arr, obj, Items, nil, cons, Fields, end, field, items,
  lookup,
}
use config_policy_controller.Json.Print.{sprint, sort_and_sprint}
use config_policy_controller.Json.Maps.{IsDistinct}
use config_policy_controller.Compare.{
  leaf_matches, sorted_by_print, Check, check_less, all_match, lists_match, string_matches,
  value_matches, fields_match, nested_matches, checks, equal_obj_with_sort,
}

-- No map in the value holds a key twice, as is so of every Go value, or is the nil map, as is so of
-- every decoded value.
abbrev mutual
  pub IsWellFormed : Value → Type 0
  IsWellFormed (arr xs) = AreWellFormed xs
  IsWellFormed (obj fs) = IsDistinct fs × HaveWellFormed fs
  IsWellFormed null = Unit
  IsWellFormed nil_map = ⊥
  IsWellFormed (bool b) = Unit
  IsWellFormed (num n) = Unit
  IsWellFormed (str s) = Unit

  pub AreWellFormed : Items → Type 0
  AreWellFormed nil = Unit
  AreWellFormed (cons x xs) = IsWellFormed x × AreWellFormed xs

  pub HaveWellFormed : Fields → Type 0
  HaveWellFormed end = Unit
  HaveWellFormed (field k v fs) = IsWellFormed v × HaveWellFormed fs

-- Every field of the first map is in the second.
abbrev pub Agrees : Fields → Fields → Type 0
Agrees end old = Unit
Agrees (field k v fs) old = (lookup k old ≡ some v) × Agrees fs old

Agrees-skip :
    (fs old : Fields) (k : String) (v : Value)
    → lookup k fs ≡ none
    → Agrees fs old
    → Agrees fs (field k v old)
Agrees-skip end old k v h a = tt
Agrees-skip (field j w fs) old k v h (p, a) = (
  ground (arith, eq_iff k j, eq_iff j k),
  Agrees-skip fs old k v (ground (arith, eq_iff k j, eq_iff j k)) a,
)

Agrees-refl : (fs : Fields) → IsDistinct fs → Agrees fs fs
Agrees-refl end h = tt
Agrees-refl (field k v fs) (p, h) = (rw (eq_refl k), Agrees-skip fs fs k v p (Agrees-refl fs h))

leaf_matches_refl : (v : Value) → leaf_matches v v ≡ true
leaf_matches_refl v = ground (arith, eq_refl (sprint v))

module _ {Quantity : Type 0} (parse_quantity : String → Option Quantity)
    (quantity_equal : Quantity → Quantity → Bool)
    (quantity_equal_refl : (q : Quantity) → quantity_equal q q ≡ true) where
  abbrev with_key : Value → Check
  with_key v = (sort_and_sprint v, nested_matches parse_quantity quantity_equal v)

  checks-map : (xs : Items) → checks parse_quantity quantity_equal xs ≡ map with_key (items xs)
  unfolding checks
  checks-map nil = refl
  checks-map (cons x xs) = rw (checks-map xs)

  -- A value matches itself inside a list.
  abbrev MatchesSelf : Value → Type 0
  MatchesSelf v = nested_matches parse_quantity quantity_equal v v ≡ true

  all_match_self : (vs : List Value) → All MatchesSelf vs → all_match vs (map with_key vs) ≡ true
  unfolding all_match
  all_match_self [] h = refl
  all_match_self (v ∷ vs) (p, h) = rw p (all_match_self vs h)

  lists_match_self :
      (xs : Items)
      → All MatchesSelf (items xs)
      → lists_match (items xs) (checks parse_quantity quantity_equal xs) ≡ true
  unfolding lists_match
  lists_match_self xs h =
      let n : (length (map with_key (items xs)) == length (items xs)) ≡ true =
        rw (length-map (items xs) with_key) (ground arith) in
      rw (checks-map xs) (
        rw n (
          rw (sort_by-map with_key check_less (items xs))
            (all_match_self (sorted_by_print (items xs)) (All-sort_by _ MatchesSelf (items xs) h))))

  string_matches_self :
      (s : String) → string_matches parse_quantity quantity_equal s (some (str s)) ≡ true
  unfolding string_matches sprint
  string_matches_self s = elim (Option-cases (parse_quantity s)) [
    | inl e ↦ rw (e, string_matches) (eq_refl s)
    | inr (q, e) ↦ ground (arith, e, quantity_equal_refl q)
  ]

  mutual
    unfolding value_matches

    pub value_matches_self :
        (v : Value) (z : Bool)
        → IsWellFormed v
        → value_matches parse_quantity quantity_equal v (some v) z ≡ true
    value_matches_self null z h = leaf_matches_refl null
    value_matches_self nil_map z h = absurd h
    value_matches_self (bool b) z h = leaf_matches_refl (bool b)
    value_matches_self (num n) z h = leaf_matches_refl (num n)
    value_matches_self (str s) z h = string_matches_self s
    value_matches_self (arr xs) z h =
        rw (lists_match_self xs (items_match_self xs h)) (ground arith)
    value_matches_self (obj fs) z (d, h) =
        rw (fields_match_self fs fs z (Agrees-refl fs d) h) (ground arith)

    fields_match_self :
        (fs old : Fields) (z : Bool)
        → Agrees fs old
        → HaveWellFormed fs
        → fields_match parse_quantity quantity_equal fs old z ≡ true
    fields_match_self end old z a h = refl
    fields_match_self (field k v fs) old z (p, a) (w, h) =
        rw p (rw (value_matches_self v z w) (fields_match_self fs old z a h))

    matches_nested_self : (v : Value) → IsWellFormed v → MatchesSelf v
    matches_nested_self null h = eq_refl (sprint null)
    matches_nested_self nil_map h = absurd h
    matches_nested_self (bool b) h = eq_refl (sprint (bool b))
    matches_nested_self (num n) h = eq_refl (sprint (num n))
    matches_nested_self (str s) h = eq_refl (sprint (str s))
    matches_nested_self (arr xs) h = eq_refl (sprint (arr xs))
    matches_nested_self (obj fs) (d, h) =
        rw (fields_match_self fs fs true (Agrees-refl fs d) h) (ground arith)

    items_match_self : (xs : Items) → AreWellFormed xs → All MatchesSelf (items xs)
    items_match_self nil h = tt
    items_match_self (cons x xs) (w, h) = (matches_nested_self x w, items_match_self xs h)

  -- Every well-formed value compares equal to itself, whether or not a zero value counts as an
  -- absent one, if a quantity equals itself.
  pub equal_obj_with_sort_refl :
      (v : Value) (z : Bool)
      → IsWellFormed v
      → equal_obj_with_sort parse_quantity quantity_equal v v z ≡ true
  unfolding equal_obj_with_sort
  equal_obj_with_sort_refl nil_map z h = absurd h
  equal_obj_with_sort_refl null z h = ground (arith, eq_refl (sprint null))
  equal_obj_with_sort_refl (bool b) z h = ground (arith, eq_refl (sprint (bool b)))
  equal_obj_with_sort_refl (num n) z h = ground (arith, eq_refl (sprint (num n)))
  equal_obj_with_sort_refl (str s) z h = ground (arith, eq_refl (sprint (str s)))
  equal_obj_with_sort_refl (arr xs) z h = lists_match_self xs (items_match_self xs h)
  equal_obj_with_sort_refl (obj fs) z (d, h) =
      rw (fields_match_self fs fs z (Agrees-refl fs d) h) (ground arith)
