-- ===== src/Merge/Lookup.antt =====
-- What stands under each key of a merged map.
use config_policy_controller.Prelude.{
  String, ◌≡◌, ◌≢◌, refl, ◌≤◌, Bool, Option, none, some, arith, eq_iff, Bool-cases, inl, inr,
}
use config_policy_controller.Prelude.Text.{str_eq}
use config_policy_controller.Policy.{ComplianceType}
use config_policy_controller.Json.{Value, Fields, end, field, lookup, insert, count}
use config_policy_controller.Json.Maps.{IsDistinct, lookup-insert, insert-IsDistinct, count-Covers}
use config_policy_controller.Merge.{merge_value, merge_fields}

module _ {Quantity : Type 0} (parse_quantity : String → Option Quantity)
    (quantity_equal : Quantity → Quantity → Bool) (ctype : ComplianceType)
    (zero_equals_nil : Bool) where
  abbrev merged : Fields → Fields → Fields
  merged = merge_fields parse_quantity quantity_equal ctype zero_equals_nil

  abbrev both : Value → Value → Value
  both = merge_value parse_quantity quantity_equal ctype zero_equals_nil

  -- The template's value merged with the existing one, or the one that there is.
  abbrev pub merged_at : Option Value → Option Value → Option Value
  merged_at none e = e
  merged_at (some v1) none = some v1
  merged_at (some v1) (some v2) = some (both v1 v2)

  merged_here :
      (o : Option Value) (v2 : Value)
      → some (elim o [ none ↦ v2 | some v1 ↦ both v1 v2 ]) ≡ merged_at o (some v2)
  merged_here none v2 = refl
  merged_here (some v1) v2 = refl

  -- Under every key of the merged map stands what the template and the existing map have there,
  -- merged where both have something, whatever order the existing map is read in, if the existing
  -- map has no key twice.
  pub lookup-merge_fields :
      (k : String) (t e : Fields)
      → IsDistinct e
      → lookup k (merged t e) ≡ merged_at (lookup k t) (lookup k e)
  unfolding merge_fields
  lookup-merge_fields k t end d = ground arith
  lookup-merge_fields k t (field j v2 fs) (fresh, d) =
      rw (lookup-merge_fields k (insert j next t) fs d) (
        rw (lookup-insert j k next t) (elim (Bool-cases (str_eq j k)) [
          | inl same ↦
              let e : j ≡ k = (eq_iff j k).0 same in
              rw same (rw (← e) (rw fresh (merged_here (lookup j t) v2)))
          | inr other ↦ rw other
        ]))
    where
      next : Value
      next = elim (lookup j t) [ none ↦ v2 | some v1 ↦ both v1 v2 ]

  pub merge_fields-IsDistinct : (e t : Fields) → IsDistinct t → IsDistinct (merged t e)
  unfolding merge_fields
  merge_fields-IsDistinct end t h = h
  merge_fields-IsDistinct (field j v2 fs) t h =
      merge_fields-IsDistinct fs _ (insert-IsDistinct j _ t h)

  merged_at-ne-none : (a b : Option Value) → b ≢ none → merged_at a b ≢ none
  merged_at-ne-none none b h = h
  merged_at-ne-none (some a) none h = λ e. cc
  merged_at-ne-none (some a) (some b) h = λ e. cc

  -- Merging loses no key of the existing map, so the merged map is never the shorter one.
  pub count-le-count-merge_fields : (t e : Fields) → IsDistinct e → count e ≤ count (merged t e)
  count-le-count-merge_fields t e d =
      count-Covers e (merged t e) d
        λ k h. rw (lookup-merge_fields k t e d) (merged_at-ne-none (lookup k t) (lookup k e) h)
