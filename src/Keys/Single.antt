-- ===== src/Keys/Single.antt =====
-- What `handleSingleKey` says of a key whose values are maps.
use config_policy_controller.Prelude.{
  String, ◌≡◌, ◌↔◌, refl, Bool, true, false, not, ◌||◌, ◌&&◌, Option, some, arith,
}
use config_policy_controller.Prelude.Text.{str_eq}
use config_policy_controller.Policy.{ComplianceType, is_must_only_have}
use config_policy_controller.Json.{obj, Fields, lookup}
use config_policy_controller.Compare.{equal_obj_with_sort}
use config_policy_controller.Compare.Reflexive.{IsWellFormed}
use config_policy_controller.Merge.{compare_specs}
use config_policy_controller.Merge.Satisfied.{AllSatisfied, compare_specs-Satisfied}
use config_policy_controller.Keys.{
  Unstructured, handled, merge_key, compare_key, handle_single_key, format_template,
}

-- A key without a special case.
abbrev pub is_plain : String → Bool
is_plain key =
    not (str_eq key "apiVersion" || str_eq key "kind")
    && (not (str_eq key "metadata") && not (str_eq key "stringData"))

not_iff : {P : Type 0} → (b : Bool) → ((b ≡ true) ↔ P) → (not b ≡ false) ↔ P
not_iff b (f, g) = (λ h. f (ground (arith, h)), λ p. ground (arith, g p))

module _ (unstructured : Unstructured) (decode_base64 : String → Option String) {Quantity : Type 0}
    (parse_quantity : String → Option Quantity) (quantity_equal : Quantity → Quantity → Bool)
    (quantity_equal_refl : (q : Quantity) → quantity_equal q q ≡ true) where
  compare_plain :
      (key : String) (desired existing : Fields) (ctype : ComplianceType) (tf ef : Fields)
      → is_plain key ≡ true
      → lookup key desired ≡ some (obj tf)
      → lookup key existing ≡ some (obj ef)
      → handle_single_key unstructured decode_base64 parse_quantity quantity_equal key desired
          existing ctype false
        ≡ handled
            (not (
              equal_obj_with_sort parse_quantity quantity_equal
                (obj (compare_specs parse_quantity quantity_equal ctype false tf ef))
                (obj ef)
                false))
            (obj (compare_specs parse_quantity quantity_equal ctype false tf ef))
  unfolding handle_single_key format_template merge_key compare_key
  compare_plain key desired existing ctype tf ef plain d e =
      let listed : (str_eq key "apiVersion" || str_eq key "kind") ≡ false = ground (arith, plain) in
      let metadata : str_eq key "metadata" ≡ false = ground (arith, plain) in
      let data' : str_eq key "stringData" ≡ false = ground (arith, plain) in
      rw (listed, handle_single_key)
        (rw (metadata, format_template)
          (rw d (rw e (rw (metadata, compare_key) (rw data' (rw e refl))))))

  -- For a key other than `apiVersion`, `kind`, `metadata` and `stringData`, under which both
  -- objects have maps, and a compliance type other than `mustonlyhave`, `handleSingleKey` gives the
  -- merged map, and finds no difference exactly if the existing map satisfies the template's, if no
  -- map holds a key twice and a quantity equals itself.
  pub handle_single_key-Satisfied :
      (key : String) (desired existing : Fields) (ctype : ComplianceType) (tf ef : Fields)
      → is_plain key ≡ true
      → is_must_only_have ctype ≡ false
      → lookup key desired ≡ some (obj tf)
      → lookup key existing ≡ some (obj ef)
      → IsWellFormed (obj tf)
      → IsWellFormed (obj ef)
      → (u : Bool) × (handle_single_key unstructured decode_base64 parse_quantity quantity_equal key
            desired existing ctype false
          ≡ handled u (obj (compare_specs parse_quantity quantity_equal ctype false tf ef)))
        × ((u ≡ false) ↔ AllSatisfied parse_quantity quantity_equal ctype false tf ef)
  handle_single_key-Satisfied key desired existing ctype tf ef plain loose d e wt we = (
    _,
    compare_plain key desired existing ctype tf ef plain d e,
    not_iff _ (
        compare_specs-Satisfied parse_quantity quantity_equal ctype false quantity_equal_refl tf ef
          loose wt we),
  )
