-- ===== src/Merge/Satisfied.antt =====
-- When an object satisfies a template, as a relation, and the theorem that merging and comparing
-- decides it.
use config_policy_controller.Prelude.{
  ℕ, String, ◌≡◌, ◌↔◌, refl, Bool, true, false, ◌&&◌, Option, none, some, [], arith, ltb, ◌==◌,
}
use config_policy_controller.Policy.{ComplianceType, is_must_only_have}
use config_policy_controller.Json.{
  Value, null, nil_map, bool, num, str, arr, obj, Items, nil, cons, Fields, end, field, items,
  count, lookup, or_null,
}
use mathlib.Core.Bool.{and-eq-true_iff}
use config_policy_controller.Json.Maps.{IsDistinct, AllFields, AllFields-lookup, lookup-AllFields}
use config_policy_controller.Compare.{
  leaf_matches, string_matches, value_matches, fields_match, equal_obj_with_sort,
}
use config_policy_controller.Compare.Reflexive.{IsWellFormed, HaveWellFormed, value_matches_self}
use config_policy_controller.Merge.{merge_value, merge_fields, compare_specs}
use config_policy_controller.Merge.Lookup.{
  merged_at, lookup-merge_fields, merge_fields-IsDistinct, count-le-count-merge_fields,
}

asks_nothing : (z : Bool) (n : ℕ) → ((z && n == 0) ≡ true) ↔ ((z ≡ true) × (n ≡ 0))
asks_nothing z n = (λ h. ground arith, λ h. ground arith)

module _ {Quantity : Type 0} (parse_quantity : String → Option Quantity)
    (quantity_equal : Quantity → Quantity → Bool) (ctype : ComplianceType)
    (zero_equals_nil : Bool) where
  abbrev merged : Fields → Fields → Fields
  merged = merge_fields parse_quantity quantity_equal ctype zero_equals_nil

  abbrev both : Value → Value → Value
  both = merge_value parse_quantity quantity_equal ctype zero_equals_nil

  abbrev matches : Value → Option Value → Bool
  matches v old = value_matches parse_quantity quantity_equal v old zero_equals_nil

  abbrev all_fields : Fields → Fields → Bool
  all_fields m old = fields_match parse_quantity quantity_equal m old zero_equals_nil

  -- What a template's value asks of the existing one. A map asks for each of its fields, whatever
  -- else the existing map has. A template without a value accepts every map. A list asks that the
  -- merged list matches.
  abbrev mutual
    pub Satisfied : Value → Option Value → Type 0
    Satisfied (obj tf) (some (obj ef)) = AllSatisfied tf ef
    Satisfied (obj tf) _ = (zero_equals_nil ≡ true) × (count tf ≡ 0)
    Satisfied (arr ts) none = items ts ≡ []
    Satisfied (arr ts) (some v) = matches (both (arr ts) v) (some v) ≡ true
    Satisfied nil_map old = ⊥
    Satisfied null (some (obj ef)) = Unit
    Satisfied null old = leaf_matches null (or_null old) ≡ true
    Satisfied (str s) old = string_matches parse_quantity quantity_equal s old ≡ true
    Satisfied (bool b) old = leaf_matches (bool b) (or_null old) ≡ true
    Satisfied (num n) old = leaf_matches (num n) (or_null old) ≡ true

    pub AllSatisfied : Fields → Fields → Type 0
    AllSatisfied end ef = Unit
    AllSatisfied (field k v tf) ef = Satisfied v (lookup k ef) × AllSatisfied tf ef

  -- What the merged value under a key of the template is compared with.
  abbrev ok_at : Value → Option Value → Bool
  ok_at v1 none = matches v1 none
  ok_at v1 (some v2) = matches (both v1 v2) (some v2)

  abbrev OkFields : Fields → Fields → Type 0
  OkFields tf ef = AllFields (λ k v. ok_at v (lookup k ef) ≡ true) tf

  abbrev MatchingFields : Fields → Fields → Type 0
  MatchingFields m old = AllFields (λ k v. matches v (lookup k old) ≡ true) m

  fields_match_iff : (m old : Fields) → (all_fields m old ≡ true) ↔ MatchingFields m old
  unfolding fields_match
  fields_match_iff end old = (λ h. tt, λ h. refl)
  fields_match_iff (field k v m) old =
      let ih = fields_match_iff m old in
      let split = and-eq-true_iff (matches v (lookup k old)) (all_fields m old) in
      (λ h. ((split.0 h).0, ih.0 (split.0 h).1), λ h. split.1 (h.0, ih.1 h.1))

  HaveWellFormed-lookup :
      (fs : Fields) (k : String) (v : Value)
      → HaveWellFormed fs
      → lookup k fs ≡ some v
      → IsWellFormed v
  HaveWellFormed-lookup fs k v h e = AllFields-lookup (λ _ w. IsWellFormed w) fs k v (go fs h) e
    where
      go : (gs : Fields) → HaveWellFormed gs → AllFields (λ _ w. IsWellFormed w) gs
      go end h = tt
      go (field j w gs) (p, h) = (p, go gs h)

  module _ (quantity_equal_refl : (q : Quantity) → quantity_equal q q ≡ true) where
    -- One field of the merged map: it comes from the template, or is as it was.
    merged_field :
        (k : String) (a b : Option Value) (v : Value)
        → ((v1 : Value) → a ≡ some v1 → ok_at v1 b ≡ true)
        → ((v2 : Value) → b ≡ some v2 → IsWellFormed v2)
        → merged_at parse_quantity quantity_equal ctype zero_equals_nil a b ≡ some v
        → matches v b ≡ true
    merged_field k none none v f w e = cc
    merged_field k none (some v2) v f w e =
        let same : v2 ≡ v = cc in
        rw (← same) (
          value_matches_self parse_quantity quantity_equal quantity_equal_refl v2 zero_equals_nil
            (w v2 refl))
    merged_field k (some v1) none v f w e = let same : v1 ≡ v = cc in rw (← same) (f v1 refl)
    merged_field k (some v1) (some v2) v f w e =
        let same : both v1 v2 ≡ v = cc in rw (← same) (f v1 refl)

    ok_of_match :
        (v1 : Value) (b : Option Value)
        → ((v : Value)
            → merged_at parse_quantity quantity_equal ctype zero_equals_nil (some v1) b ≡ some v
            → matches v b ≡ true)
        → ok_at v1 b ≡ true
    ok_of_match v1 none f = f v1 refl
    ok_of_match v1 (some v2) f = f (both v1 v2) refl

    -- The merged map matches the existing one exactly when every field of the template is fine.
    merged_matches_iff :
        (tf ef : Fields)
        → IsDistinct tf
        → IsDistinct ef × HaveWellFormed ef
        → (all_fields (merged tf ef) ef ≡ true) ↔ OkFields tf ef
    merged_matches_iff tf ef dt (de, we) = (
      λ h. lookup-AllFields _ tf dt λ k v1 e. ok_of_match v1 (lookup k ef) λ v g.
          AllFields-lookup _ (merged tf ef) k v ((fields_match_iff (merged tf ef) ef).0 h) (
            rw
              (
                lookup-merge_fields parse_quantity quantity_equal ctype zero_equals_nil k tf ef de,
                e,
              )
              g),
      λ h. (fields_match_iff (merged tf ef) ef).1 (
          lookup-AllFields _ (merged tf ef)
            (merge_fields-IsDistinct parse_quantity quantity_equal ctype zero_equals_nil ef tf dt)
            λ k v e.
              merged_field k (lookup k tf) (lookup k ef) v (λ v1 f. AllFields-lookup _ tf k v1 h f)
                (λ v2 f. HaveWellFormed-lookup ef k v2 we f)
                (rw
                  (lookup-merge_fields parse_quantity quantity_equal ctype zero_equals_nil k tf ef
                    de)
                  at e)),
    )

    long_enough : (tf ef : Fields) → IsDistinct ef → ltb (count (merged tf ef)) (count ef) ≡ false
    long_enough tf ef d = ground (
      arith,
      count-le-count-merge_fields parse_quantity quantity_equal ctype zero_equals_nil tf ef d,
    )

    abbrev IsGiven : Option Value → Type 0
    IsGiven none = Unit
    IsGiven (some v) = IsWellFormed v

    IsGiven-of : (o : Option Value) → ((v : Value) → o ≡ some v → IsWellFormed v) → IsGiven o
    IsGiven-of none f = tt
    IsGiven-of (some v) f = f v refl

    given : (k : String) (ef : Fields) → HaveWellFormed ef → IsGiven (lookup k ef)
    given k ef w = IsGiven-of (lookup k ef) (λ v e. HaveWellFormed-lookup ef k v w e)

    Satisfied-str : (s : String) (o : Option Value) → (ok_at (str s) o ≡ true) ↔ Satisfied (str s) o
    unfolding value_matches merge_value
    Satisfied-str s none = (λ h. h, λ h. h)
    Satisfied-str s (some null) = (λ h. h, λ h. h)
    Satisfied-str s (some _) = (λ h. h, λ h. h)

    Satisfied-bool :
        (b : Bool) (o : Option Value) → (ok_at (bool b) o ≡ true) ↔ Satisfied (bool b) o
    unfolding value_matches merge_value
    Satisfied-bool b none = (λ h. h, λ h. h)
    Satisfied-bool b (some null) = (λ h. h, λ h. h)
    Satisfied-bool b (some _) = (λ h. h, λ h. h)

    Satisfied-num : (n : String) (o : Option Value) → (ok_at (num n) o ≡ true) ↔ Satisfied (num n) o
    unfolding value_matches merge_value
    Satisfied-num n none = (λ h. h, λ h. h)
    Satisfied-num n (some null) = (λ h. h, λ h. h)
    Satisfied-num n (some _) = (λ h. h, λ h. h)

    Satisfied-null : (o : Option Value) → IsGiven o → (ok_at null o ≡ true) ↔ Satisfied null o
    unfolding value_matches merge_value
    Satisfied-null none w = (λ h. h, λ h. h)
    Satisfied-null (some (obj ef)) w = (
      λ h. tt,
      λ h.
          value_matches_self parse_quantity quantity_equal quantity_equal_refl (obj ef)
            zero_equals_nil w,
    )
    Satisfied-null (some _) w = (λ h. h, λ h. h)

    Satisfied-arr :
        (ts : Items) (o : Option Value) → (ok_at (arr ts) o ≡ true) ↔ Satisfied (arr ts) o
    unfolding value_matches merge_value
    Satisfied-arr nil none = (λ h. refl, λ h. refl)
    Satisfied-arr (cons t ts) none = (λ h. absurd (ground arith), λ h. cc)
    Satisfied-arr ts (some _) = (λ h. h, λ h. h)

    mutual
      unfolding value_matches merge_value

      Satisfied-value :
          (v1 : Value) (o : Option Value)
          → IsWellFormed v1
          → IsGiven o
          → (ok_at v1 o ≡ true) ↔ Satisfied v1 o
      Satisfied-value null o w g = Satisfied-null o g
      Satisfied-value nil_map o w g = absurd w
      Satisfied-value (bool b) o w g = Satisfied-bool b o
      Satisfied-value (num n) o w g = Satisfied-num n o
      Satisfied-value (str s) o w g = Satisfied-str s o
      Satisfied-value (arr ts) o w g = Satisfied-arr ts o
      Satisfied-value (obj tf) (some (obj ef)) (dt, wt) g =
          let these = Satisfied-fields tf ef wt g.1 in
          let whole = merged_matches_iff tf ef dt g in
          rw (long_enough tf ef g.0) (λ h. these.0 (whole.0 h), λ h. whole.1 (these.1 h))
      Satisfied-value (obj tf) _ w g = asks_nothing zero_equals_nil (count tf)

      Satisfied-fields :
          (tf ef : Fields)
          → HaveWellFormed tf
          → HaveWellFormed ef
          → OkFields tf ef ↔ AllSatisfied tf ef
      Satisfied-fields end ef w g = (λ h. tt, λ h. tt)
      Satisfied-fields (field k v tf) ef (wv, w) g =
          let here = Satisfied-value v (lookup k ef) wv (given k ef g) in
          let later = Satisfied-fields tf ef w g in
          (λ h. (here.0 h.0, later.0 h.1), λ h. (here.1 h.0, later.1 h.1))

    -- For a compliance type other than `mustonlyhave`, merging a template's map into an existing
    -- one and comparing the result with the existing one succeeds exactly when the existing map
    -- satisfies the template, field by field, if no map holds a key twice and a quantity equals
    -- itself.
    pub compare_specs-Satisfied :
        (tf ef : Fields)
        → is_must_only_have ctype ≡ false
        → IsWellFormed (obj tf)
        → IsWellFormed (obj ef)
        → (equal_obj_with_sort parse_quantity quantity_equal
              (obj (compare_specs parse_quantity quantity_equal ctype zero_equals_nil tf ef))
              (obj ef)
              zero_equals_nil
            ≡ true)
          ↔ AllSatisfied tf ef
    unfolding equal_obj_with_sort compare_specs
    compare_specs-Satisfied tf ef not_only (dt, wt) (de, we) =
        let these = Satisfied-fields tf ef wt we in
        let whole = merged_matches_iff tf ef dt (de, we) in
        rw not_only (rw (long_enough tf ef de) (λ h. these.0 (whole.0 h), λ h. whole.1 (these.1 h)))
