-- ===== src/Merge.antt =====
-- Merging what a template asks for into what is on the cluster: `mergeSpecsHelper`, `mergeArrays`
-- and `compareSpecs` of controllers/configurationpolicy_controller.go. `mergeSpecs` first copies
-- the template through JSON; the copy of a decoded value is the value.
pub mod Lookup
pub mod Satisfied
pub mod Filling
pub mod Arrays
pub mod Tests
use config_policy_controller.Prelude.{
  ℕ, zero, suc, ◌-◌, String, Bool, true, false, not, ◌&&◌, ◌||◌, Option, none, some, List, [], ◌∷◌,
  ◌++◌, map, any, length, replicate, leb, ◌==◌, if◌then◌else◌,
}
use config_policy_controller.Prelude.Text.{str_eq}
use config_policy_controller.Policy.{ComplianceType, is_must_only_have}
use config_policy_controller.Json.{
  Value, null, nil_map, bool, num, str, arr, obj, Items, nil, cons, Fields, end, field, items,
  of_list, lookup, insert, copy_fields,
}
use config_policy_controller.Json.Print.{sprint, sprint_items}
use config_policy_controller.Compare.{equal_obj_with_sort}

-- A position of the desired list: the template's value, what now stands there, and whether
-- something was written there.
pub record Slot : Type 0 where
  pub original : Value
  pub current : Value
  pub written : Bool

abbrev pub slots_of : List Value → List Slot
slots_of vs = map (λ (v : Value). record { original = v; current = v; written = false }) vs

abbrev pub currents : List Slot → List Value
currents ss = map (λ (s : Slot). s.current) ss

-- `oldItemSet[key].count`
abbrev pub occurrences : String → List String → ℕ
occurrences key [] = 0
occurrences key (k ∷ ks) = let rest = occurrences key ks in if str_eq k key then suc rest else rest

-- The maps agree on a name that is not empty.
unfoldable pub same_named : Fields → Fields → Bool
same_named f1 f2 = elim (lookup "name" f2) [
  | some (str n2) ↦
      not (str_eq n2 "") && (elim (lookup "name" f1) [ some (str n1) ↦ str_eq n1 n2 | _ ↦ false ])
  | _ ↦ false
]

-- The inner loop of `mergeArrays`: the positions from here on, with `count` matches so far of the
-- `needed` ones. `attempt` gives the merged value and whether it matches.
unfoldable pub fill : (Value → Value × Bool) → ℕ → ℕ → List Slot → List Slot × ℕ
fill attempt needed count [] = ([], count)
fill attempt needed count (s ∷ ss) =
    let tried = attempt s.original in
    let hit = not s.written && tried.1 in
    let s' : Slot =
      if hit then record { original = s.original; current = tried.0; written = true } else s in
    let count' : ℕ = if hit then suc count else count in
    let rest = fill attempt needed count' ss in
    if not s.written && count' == needed then (s' ∷ ss, count') else (s' ∷ rest.0, rest.1)

-- What the outer loop of `mergeArrays` keeps: the keys seen, the positions and the appended values.
pub record Progress : Type 0 where
  pub seen : List String
  pub slots : List Slot
  pub extra : List Value

-- One round of the outer loop. The missing occurrences of the value are appended.
unfoldable pub merge_item : (Value → Value × Bool) → List String → Value → Progress → Progress
unfolding fill
merge_item attempt keys v2 p =
    let key = sprint v2 in
    let needed = occurrences key keys in
    let filled = fill attempt needed 0 p.slots in
    let next : Progress = record {
      seen = key ∷ p.seen;
      slots = filled.0;
      extra = p.extra ++ replicate (needed - filled.1) v2;
    } in
    if any (λ (k : String). str_eq k key) p.seen then p else next

abbrev pub start : Items → Progress
start desired = record { seen = []; slots = slots_of (items desired); extra = [] }

-- The list that `mergeArrays` returns.
abbrev pub result : Progress → Items
result p = of_list (currents p.slots ++ p.extra)

module _ {Quantity : Type 0} (parse_quantity : String → Option Quantity)
    (quantity_equal : Quantity → Quantity → Bool) (ctype : ComplianceType)
    (zero_equals_nil : Bool) where
  abbrev equal : Value → Value → Bool
  equal v w = equal_obj_with_sort parse_quantity quantity_equal v w zero_equals_nil

  unfoldable mutual
    unfolding merge_item same_named is_must_only_have copy_fields

    -- `mergeSpecsHelper`, the existing value last.
    pub merge_value : Value → Value → Value
    merge_value t (obj ef) = elim t [
      | obj tf ↦ obj (merge_fields tf ef)
      | null ↦ obj ef
      | other ↦ other
    ]
    merge_value t (arr es) = elim t [
      | arr ts ↦
          if length (items es) == 0
          then arr ts
          else if is_must_only_have ctype
          then arr ts
          else arr (result (merge_items es (sprint_items es) (start ts)))
      | other ↦ other
    ]
    merge_value t null = t
    merge_value t nil_map = t
    merge_value t (bool b) = t
    merge_value t (num n) = t
    merge_value t (str s) = t

    -- Its loop over the fields of the existing map.
    pub merge_fields : Fields → Fields → Fields
    merge_fields t end = t
    merge_fields t (field k v2 fs) =
        let merged : Value = elim (lookup k t) [ none ↦ v2 | some v1 ↦ merge_value v1 v2 ] in
        merge_fields (insert k merged t) fs

    -- The outer loop of `mergeArrays`.
    pub merge_items : Items → List String → Progress → Progress
    merge_items nil keys p = p
    merge_items (cons v2 vs) keys p = merge_items vs keys (merge_item (attempt v2) keys v2 p)

    -- One value of the template's list against one of the existing list: the merged value, and
    -- whether it counts as a match. Maps are merged into a copy. Against a map, a value that is no
    -- map is replaced by the nil map, which the failed type assertion leaves in the shadowed
    -- variable; the copy of a nil map is nil, for which the existing map stands.
    pub attempt : Value → Value → Value × Bool
    attempt (obj f2) v1 = elim v1 [
      | obj f1 ↦
          let merged = obj (merge_fields (copy_fields f1) f2) in
          (merged, same_named f1 f2 || equal merged (obj f2))
      | nil_map ↦ (obj f2, equal (obj f2) (obj f2))
      | _ ↦ (nil_map, equal nil_map (obj f2))
    ]
    attempt nil_map v1 = (v1, equal v1 nil_map)
    attempt null v1 = (v1, equal v1 null)
    attempt (bool b) v1 = (v1, equal v1 (bool b))
    attempt (num n) v1 = (v1, equal v1 (num n))
    attempt (str s) v1 = (v1, equal v1 (str s))
    attempt (arr xs) v1 = (v1, equal v1 (arr xs))

  -- `mergeArrays`
  unfoldable pub merge_arrays : Items → Items → Items
  unfolding merge_items
  merge_arrays desired existing =
      if is_must_only_have ctype
      then desired
      else result (merge_items existing (sprint_items existing) (start desired))

  -- What stands in the template's own list after the outer loop of `mergeArrays`: it is written to
  -- in place, until more values were appended than it has spare capacity for, which moves the rest
  -- of the work to a copy.
  unfoldable pub written_items : ℕ → Items → List String → Progress → List Value → List Value
  unfolding merge_items
  written_items spare nil keys p own = own
  written_items spare (cons v2 vs) keys p own =
      let next = merge_item (attempt v2) keys v2 p in
      written_items spare vs keys next
        (if leb (length p.extra) spare then currents next.slots else own)

  -- The template's own list after `mergeArrays`.
  unfoldable pub write_arrays : ℕ → Items → Items → Items
  unfolding written_items is_must_only_have
  write_arrays spare desired existing =
      if is_must_only_have ctype
      then desired
      else of_list
          (written_items spare existing (sprint_items existing) (start desired) (items desired))

  -- `compareSpecs`
  unfoldable pub compare_specs : Fields → Fields → Fields
  unfolding merge_fields
  compare_specs new old = if is_must_only_have ctype then new else merge_fields new old
