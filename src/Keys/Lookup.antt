-- ===== src/Keys/Lookup.antt =====
-- What the object that `handleKeys` updates holds under each key.
use config_policy_controller.Prelude.{
  String, ◌≡◌, refl, ◌∙◌, Bool, true, false, ◌||◌, Option, none, some, arith, eq_iff, Bool-cases,
  inl, inr, is_some, if◌then◌else◌,
}
use config_policy_controller.Prelude.Text.{str_eq}
use config_policy_controller.Policy.{ComplianceType}
use config_policy_controller.Json.{Value, Fields, end, field, lookup, delete}
use config_policy_controller.Json.Maps.{lookup-delete}
use config_policy_controller.Keys.Steps.{single}
use config_policy_controller.Keys.{
  Unstructured, StringMap, KeyResult, skipped, panicked, failed, handled, Handled, is_extra,
  remove_extra,
}

-- The setters of labels and annotations change nothing beside the metadata.
pub record AreMetadataSetters (unstructured : Unstructured) : Type 0 where
  pub annotations :
      (m : StringMap) (o : Fields) (k : String)
      → str_eq k "metadata" ≡ false
      → lookup k (unstructured.set_annotations m o) ≡ lookup k o
  pub labels :
      (m : StringMap) (o : Fields) (k : String)
      → str_eq k "metadata" ≡ false
      → lookup k (unstructured.set_labels m o) ≡ lookup k o

-- The keys that `mustonlyhave` never removes.
abbrev pub is_spared : String → Fields → Bool
is_spared k desired =
    is_some (lookup k desired)
    || (str_eq k "status" || str_eq k "metadata")
    || (str_eq k "secrets" || str_eq k "imagePullSecrets")

-- What stands under a key after its result, and what stood there before.
abbrev pub written : KeyResult → Option Value → Option Value
written (handled u m) old = some m
written skipped old = old
written panicked old = old
written (failed message) old = old

module _ (unstructured : Unstructured) where
  is_extra_intro :
      (k : String) (desired o : Fields)
      → is_spared k desired ≡ false
      → is_extra unstructured k desired o ≡ true
  unfolding is_extra
  is_extra_intro k desired o s = ground arith

  -- Unless it is spared, a key that is visited is removed.
  lookup-remove_extra :
      (fs desired : Fields) (h : Handled) (k : String)
      → is_spared k desired ≡ false
      → lookup k (remove_extra unstructured fs desired h).existing_obj
        ≡ (if is_some (lookup k fs) then none else lookup k h.existing_obj)
  unfolding remove_extra
  lookup-remove_extra end desired h k s = refl
  lookup-remove_extra (field key v fs) desired h k s =
      elim (Bool-cases (is_extra unstructured key desired h.existing_obj)) [
        | inl extra ↦
            rw (extra, remove_extra)
              (ground (
                arith,
                eq_iff key k,
                lookup-delete key k h.existing_obj,
                lookup-remove_extra fs desired
                    (record h { existing_obj = delete key (h.existing_obj); update_needed = true })
                    k s,
              ))
        | inr kept ↦
            rw (kept, remove_extra)
              (lookup-remove_extra fs desired h k s ∙ elim (Bool-cases (str_eq key k)) [
                | inl same ↦ absurd (clash key h.existing_obj ((eq_iff key k).0 same) kept)
                | inr other ↦ rw other refl
              ])
      ]
    where
      clash :
          (key : String) (o : Fields) → key ≡ k → is_extra unstructured key desired o ≡ false → ⊥
      clash key o same kept = ground (arith, is_extra_intro k desired o s, same, kept)

module _ (unstructured : Unstructured) (decode_base64 : String → Option String) {Quantity : Type 0}
    (parse_quantity : String → Option Quantity) (quantity_equal : Quantity → Quantity → Bool) where
  module _ (setters : AreMetadataSetters unstructured) (desired copy : Fields)
      (comp_type md_comp_type : ComplianceType) where
    abbrev at : String → KeyResult
    at =
        single unstructured decode_base64 parse_quantity quantity_equal desired copy comp_type
          md_comp_type
