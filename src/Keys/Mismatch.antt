-- ===== src/Keys/Mismatch.antt =====
-- The two results of `handleKeys` about a violation and about the status.
use config_policy_controller.Prelude.{String, ◌≡◌, refl, Bool, Option, arith, inl, inr, if_both}
use config_policy_controller.Policy.{ComplianceType, is_must_only_have}
use config_policy_controller.Json.{Fields, end, field}
use config_policy_controller.Keys.{
  Unstructured, Handled, finished, note_key, remove_extra, handle_each, handle_keys,
}
use config_policy_controller.Keys.Steps.{
  finished_inj, run, initial, handle_each-first, handle_keys-finished,
}

-- The violation is that of the status.
abbrev pub Agrees : Handled → Type 0
Agrees h = h.throw_spec_violation ≡ h.status_mismatch

note_key-Agrees : (key : String) (u : Bool) (h : Handled) → Agrees h → Agrees (note_key key u h)
unfolding note_key
note_key-Agrees key u h same = ground arith

module _ (unstructured : Unstructured) where
  remove_extra-Agrees :
      (fs desired : Fields) (h : Handled)
      → Agrees h
      → Agrees (remove_extra unstructured fs desired h)
  unfolding remove_extra
  remove_extra-Agrees end desired h same = same
  remove_extra-Agrees (field k v fs) desired h same =
      remove_extra-Agrees fs desired _ (if_both Agrees _ same same)

module _ (unstructured : Unstructured) (decode_base64 : String → Option String) {Quantity : Type 0}
    (parse_quantity : String → Option Quantity) (quantity_equal : Quantity → Quantity → Bool)
    (desired copy : Fields) (comp_type md_comp_type : ComplianceType) where
  handle_each-Agrees :
      (fs : Fields) (h r : Handled)
      → run unstructured decode_base64 parse_quantity quantity_equal desired copy comp_type
          md_comp_type fs h
        ≡ finished r
      → Agrees h
      → Agrees r
  unfolding handle_each
  handle_each-Agrees end h r e same = rw (finished_inj h r e) at same
  handle_each-Agrees (field key v fs) h r e same =
      elim (handle_each-first unstructured decode_base64 parse_quantity quantity_equal desired copy
        comp_type md_comp_type key v fs h r e) [
          | inl (q, e') ↦ handle_each-Agrees fs h r e' same
          | inr (u, m, q, e') ↦ handle_each-Agrees fs _ r e' (note_key-Agrees key u _ same)
        ]

  -- When `handleKeys` finishes, it reports a violation exactly for a mismatch of the status.
  pub handle_keys-Agrees :
      (existing_obj : Fields) (r : Handled)
      → handle_keys unstructured decode_base64 parse_quantity quantity_equal desired existing_obj
          copy comp_type md_comp_type
        ≡ finished r
      → Agrees r
  handle_keys-Agrees existing_obj r e =
      let (h, q, same) =
        handle_keys-finished unstructured decode_base64 parse_quantity quantity_equal desired copy
          comp_type md_comp_type existing_obj r e in
      let looped : Agrees h = handle_each-Agrees desired (initial existing_obj) h q refl in
      rw same (
        if_both Agrees (is_must_only_have comp_type)
          (remove_extra-Agrees unstructured h.existing_obj desired h looped) looped)
