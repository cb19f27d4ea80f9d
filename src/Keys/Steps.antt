-- ===== src/Keys/Steps.antt =====
-- How a run of `handleKeys` that finishes goes, key by key.
use config_policy_controller.Prelude.{
  String, ◌≡◌, ◌≢◌, ◌⊎◌, refl, sym, Bool, false, Option, arith, inl, inr, if◌then◌else◌,
}
use config_policy_controller.Policy.{ComplianceType, is_must_only_have}
use config_policy_controller.Json.{Value, Fields, field}
use config_policy_controller.Keys.{
  Unstructured, KeyResult, skipped, panicked, failed, handled, Handled, KeysResult, finished,
  stopped, crashed, handle_single_key, write_key, note_key, key_type, handle_each, remove_extra,
  handle_keys,
}

pub finished_inj : (h r : Handled) → finished h ≡ finished r → h ≡ r
finished_inj h r e = cc

crash_no : (r : Handled) → crashed ≢ finished r
crash_no r e = ground (arith, e)

stop_no : (m : String) (h r : Handled) → stopped m h ≢ finished r
stop_no m h r e = ground (arith, e)

abbrev pub initial : Fields → Handled
initial o = record {
  existing_obj = o;
  throw_spec_violation = false;
  update_needed = false;
  status_mismatch = false;
}

module _ (unstructured : Unstructured) (decode_base64 : String → Option String) {Quantity : Type 0}
    (parse_quantity : String → Option Quantity) (quantity_equal : Quantity → Quantity → Bool) where
  -- The result for one key in a call of `handleKeys`.
  abbrev pub single : Fields → Fields → ComplianceType → ComplianceType → String → KeyResult
  single desired copy comp_type md_comp_type key =
      handle_single_key unstructured decode_base64 parse_quantity quantity_equal key desired copy
        (key_type key comp_type md_comp_type) false

  module _ (desired copy : Fields) (comp_type md_comp_type : ComplianceType) where
    abbrev at : String → KeyResult
    at = single desired copy comp_type md_comp_type

    abbrev pub run : Fields → Handled → KeysResult
    run fs h =
        handle_each unstructured decode_base64 parse_quantity quantity_equal fs desired copy
          comp_type md_comp_type h

    -- What a loop that finishes did at its first key.
    pub handle_each-first :
        (key : String) (v : Value) (fs : Fields) (h r : Handled)
        → run (field key v fs) h ≡ finished r
        → (at key ≡ skipped) × (run fs h ≡ finished r)
          ⊎ ((u : Bool) × (m : Value) × (at key ≡ handled u m)
              × (run fs (
                    note_key key u
                      (record h { existing_obj = write_key unstructured key m (h.existing_obj) }))
                  ≡ finished r))
    unfolding handle_each
    handle_each-first key v fs h r e = go (at key) refl
      where
        go :
            (x : KeyResult)
            → at key ≡ x
            → (at key ≡ skipped) × (run fs h ≡ finished r)
              ⊎ ((u : Bool) × (m : Value) × (at key ≡ handled u m)
                  × (run fs (
                        note_key key u (record h {
                          existing_obj = write_key unstructured key m (h.existing_obj);
                        }))
                      ≡ finished r))
        go skipped q = inl (q, rw (q, handle_each) at e)
        go panicked q = absurd (crash_no r (rw (q, handle_each) at e))
        go (failed message) q = absurd (stop_no _ _ r (rw (q, handle_each) at e))
        go (handled u m) q = inr (u, m, q, rw (q, handle_each) at e)

    -- The two loops of a run that finishes.
    pub handle_keys-finished :
        (existing_obj : Fields) (r : Handled)
        → handle_keys unstructured decode_base64 parse_quantity quantity_equal desired existing_obj
            copy comp_type md_comp_type
          ≡ finished r
        → (h : Handled) × (run desired (initial existing_obj) ≡ finished h)
          × (r ≡ (
              if is_must_only_have comp_type
              then remove_extra unstructured h.existing_obj desired h
              else h))
    unfolding handle_keys
    handle_keys-finished existing_obj r e = go (run desired (initial existing_obj)) refl
      where
        go :
            (x : KeysResult)
            → run desired (initial existing_obj) ≡ x
            → (h : Handled) × (run desired (initial existing_obj) ≡ finished h)
              × (r ≡ (
                  if is_must_only_have comp_type
                  then remove_extra unstructured h.existing_obj desired h
                  else h))
        go crashed q = absurd (crash_no r (rw (q, handle_keys) at e))
        go (stopped m h) q = absurd (stop_no m h r (rw (q, handle_keys) at e))
        go (finished h) q = (h, q, sym (finished_inj _ r (rw (q, handle_keys) at e)))
