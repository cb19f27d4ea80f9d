-- ===== src/Keys/Update.antt =====
-- When `handleKeys` asks for an update.
use config_policy_controller.Prelude.{String, Option, ◌≡◌, ◌↔◌, refl, Bool, false, arith, inl, inr}
use config_policy_controller.Policy.{ComplianceType, is_must_only_have}
use config_policy_controller.Json.{Fields, end, field}
use config_policy_controller.Json.Maps.{AllFields}
use config_policy_controller.Keys.{
  Unstructured, KeyResult, skipped, panicked, failed, handled, Handled, finished, write_key,
  note_key, handle_each, handle_keys,
}
use config_policy_controller.Keys.Steps.{
  finished_inj, single, run, initial, handle_each-first, handle_keys-finished,
}

-- The comparison found a difference.
abbrev pub differs : KeyResult → Bool
differs (handled u m) = u
differs skipped = false
differs panicked = false
differs (failed message) = false

-- Nothing is to be updated.
abbrev pub IsUpToDate : Handled → Type 0
IsUpToDate h = (h.update_needed ≡ false) × (h.throw_spec_violation ≡ false)

note_key-IsUpToDate :
    (key : String) (u : Bool) (h : Handled)
    → IsUpToDate (note_key key u h) ↔ ((u ≡ false) × IsUpToDate h)
unfolding note_key
note_key-IsUpToDate key u h = (
  λ (a, b). (ground arith, (ground arith, ground arith)),
  λ (a, (b, c)). (ground arith, ground arith),
)

module _ (unstructured : Unstructured) (decode_base64 : String → Option String) {Quantity : Type 0}
    (parse_quantity : String → Option Quantity) (quantity_equal : Quantity → Quantity → Bool)
    (desired copy : Fields) (comp_type md_comp_type : ComplianceType) where
  abbrev at : String → KeyResult
  at =
      single unstructured decode_base64 parse_quantity quantity_equal desired copy comp_type
        md_comp_type

  abbrev ComparesEqual : Fields → Type 0
  ComparesEqual fs = AllFields (λ k v. differs (at k) ≡ false) fs

  handle_each-IsUpToDate :
      (fs : Fields) (h r : Handled)
      → run unstructured decode_base64 parse_quantity quantity_equal desired copy comp_type
          md_comp_type fs h
        ≡ finished r
      → IsUpToDate r ↔ (IsUpToDate h × ComparesEqual fs)
  unfolding handle_each
  handle_each-IsUpToDate end h r e = rw (finished_inj h r e) (λ a. (a, tt), λ a. a.0)
  handle_each-IsUpToDate (field key v fs) h r e =
      elim (handle_each-first unstructured decode_base64 parse_quantity quantity_equal desired copy
        comp_type md_comp_type key v fs h r e) [
          | inl (q, e') ↦
              let ih = handle_each-IsUpToDate fs h r e' in
              let same : differs (at key) ≡ false = rw q refl in
              (λ a. ((ih.0 a).0, (same, (ih.0 a).1)), λ a. ih.1 (a.0, a.1.1))
          | inr (u, m, q, e') ↦
              let h' : Handled = record h {
                existing_obj = write_key unstructured key m (h.existing_obj);
              } in
              let ih = handle_each-IsUpToDate fs (note_key key u h') r e' in
              let step = note_key-IsUpToDate key u h' in
              let same : differs (at key) ≡ u = rw q refl in
              (
                λ a. let (b, c) = step.0 (ih.0 a).0 in (c, (rw same b, (ih.0 a).1)),
                λ a. ih.1 (step.1 (rw same at a.1.0, a.0), a.1.1),
              )
        ]

  -- When `handleKeys` finishes and the compliance type is not `mustonlyhave`, it asks for no update
  -- and reports no violation exactly if the comparison of every key of the desired object found no
  -- difference.
  pub handle_keys-IsUpToDate :
      (existing_obj : Fields) (r : Handled)
      → is_must_only_have comp_type ≡ false
      → handle_keys unstructured decode_base64 parse_quantity quantity_equal desired existing_obj
          copy comp_type md_comp_type
        ≡ finished r
      → IsUpToDate r ↔ AllFields (λ k v. differs (at k) ≡ false) desired
  handle_keys-IsUpToDate existing_obj r loose e =
      let (h, q, same) =
        handle_keys-finished unstructured decode_base64 parse_quantity quantity_equal desired copy
          comp_type md_comp_type existing_obj r e in
      let steps = handle_each-IsUpToDate desired (initial existing_obj) h q in
      rw (rw loose at same) (λ a. (steps.0 a).1, λ a. steps.1 ((refl, refl), a))
