-- ===== src/Names/Listed.antt =====
-- Which objects `buildNameList` lists for a template without lists.
use config_policy_controller.Prelude.{
  ℕ, String, ◌≡◌, refl, sym, ◌∙◌, Bool, true, false, ◌&&◌, ◌||◌, Option, none, some, List, [], ◌∷◌,
  map, keep, arith, if_both, if◌then◌else◌,
}
use config_policy_controller.Prelude.Text.{str_eq}
use config_policy_controller.Policy.{ComplianceType}
use config_policy_controller.Json.{
  Value, null, nil_map, bool, num, str, arr, obj, Fields, end, field, lookup, or_null,
}
use config_policy_controller.Keys.{
  Unstructured, KeyResult, skipped, panicked, failed, handled, format_template, key_type,
}
use config_policy_controller.Keys.Writes.{written_list, write_desired, desired_after}
use config_policy_controller.Names.{
  agrees, both_agree, key_result, object_matches, template_after, add_name, build_name_list,
}

both_agree_lem :
    (r : KeyResult) (rest : Option Bool) (b c : Bool)
    → both_agree r rest ≡ some b
    → ((d : Bool) → rest ≡ some d → d ≡ c)
    → b ≡ (agrees r && c)
both_agree_lem skipped rest b c h f = f b h
both_agree_lem panicked rest b c h f = absurd (ground (arith, h))
both_agree_lem (failed m) none b c h f = absurd (ground (arith, h))
both_agree_lem (failed m) (some d) b c h f = ground (arith, h)
both_agree_lem (handled u m) none b c h f = absurd (ground (arith, h))
both_agree_lem (handled u m) (some d) b c h f = let e = f d refl in ground (arith, h, e)

some_inj : {A : Type 0} → (a b : A) → some a ≡ some b → a ≡ b
some_inj a b h = cc

add_name_lem :
    (name : String) (m : Option Bool) (rest : Option (List String)) (names ns : List String)
    (c : Bool)
    → add_name name m rest ≡ some names
    → ((d : Bool) → m ≡ some d → d ≡ c)
    → ((ks : List String) → rest ≡ some ks → ks ≡ ns)
    → names ≡ (if c then name ∷ ns else ns)
add_name_lem name none rest names ns c h f g = absurd (ground (arith, h))
add_name_lem name (some b) none names ns c h f g = absurd (ground (arith, h))
add_name_lem name (some b) (some ks) names ns c h f g =
    let e = f b refl in let i = g ks refl in rw (← e) (rw (← i) (some_inj _ _ (sym h)))

abbrev pub is_list : Value → Bool
is_list (arr xs) = true
is_list _ = false

-- A key of the template holds a list.
abbrev pub holds_list : Fields → Bool
holds_list end = false
holds_list (field k v fs) = is_list v || holds_list fs

lookup_no_list :
    (key : String) (fs : Fields) → holds_list fs ≡ false → is_list (or_null (lookup key fs)) ≡ false
lookup_no_list key end h = refl
lookup_no_list key (field k v fs) h = ground (arith, h, lookup_no_list key fs (ground (arith, h)))

format_template_no_list :
    (key : String) (fs : Fields) → holds_list fs ≡ false → is_list (format_template fs key) ≡ false
unfolding format_template
format_template_no_list key fs h = ground (arith, lookup_no_list key fs h)

module _ (unstructured : Unstructured) (decode_base64 : String → Option String) {Quantity : Type 0}
    (parse_quantity : String → Option Quantity) (quantity_equal : Quantity → Quantity → Bool)
    (spare : String → ℕ) (compliance_type : ComplianceType) where
  written_no_list :
      (n : ℕ) (key : String) (desired_obj : Fields) (v existing : Value) (ctype : ComplianceType)
      (zero_equals_nil : Bool)
      → is_list v ≡ false
      → written_list parse_quantity quantity_equal n key desired_obj v existing ctype
          zero_equals_nil
        ≡ desired_obj
  written_no_list n key desired_obj (arr xs) existing ctype zero_equals_nil h =
      absurd (ground (arith, h))
  written_no_list n key desired_obj (obj fs) existing ctype zero_equals_nil h = refl
  written_no_list n key desired_obj nil_map existing ctype zero_equals_nil h = refl
  written_no_list n key desired_obj null existing ctype zero_equals_nil h = refl
  written_no_list n key desired_obj (bool b) existing ctype zero_equals_nil h = refl
  written_no_list n key desired_obj (num m) existing ctype zero_equals_nil h = refl
  written_no_list n key desired_obj (str t) existing ctype zero_equals_nil h = refl

  write_desired_no_list :
      (key : String) (desired_obj existing : Fields) (ctype : ComplianceType)
      (zero_equals_nil : Bool)
      → holds_list desired_obj ≡ false
      → write_desired parse_quantity quantity_equal spare key desired_obj existing ctype
          zero_equals_nil
        ≡ desired_obj
  unfolding write_desired
  write_desired_no_list key desired_obj existing ctype zero_equals_nil h =
      if_both (λ o. o ≡ desired_obj) (str_eq key "apiVersion" || str_eq key "kind") refl
        (written_no_list (spare key) key desired_obj (format_template desired_obj key)
          (or_null (lookup key existing)) ctype zero_equals_nil
          (format_template_no_list key desired_obj h))

  desired_after_no_list :
      (fs desired_obj existing : Fields)
      → holds_list desired_obj ≡ false
      → desired_after parse_quantity quantity_equal spare fs desired_obj existing compliance_type ""
          true
        ≡ desired_obj
  unfolding desired_after
  desired_after_no_list end desired_obj existing h = refl
  desired_after_no_list (field key v fs) desired_obj existing h =
      rw (write_desired_no_list key desired_obj existing (key_type key compliance_type "") true h)
        (desired_after_no_list fs desired_obj existing h)

  -- The object agrees with every key of the template.
  abbrev pub is_match : Fields → Fields → Fields → Bool
  is_match desired_obj end object = true
  is_match desired_obj (field key v fs) object =
      agrees (
        key_result unstructured decode_base64 parse_quantity quantity_equal spare compliance_type
          desired_obj object key)
      && is_match desired_obj fs object

  object_matches_lem :
      (desired_obj fs object : Fields) (b : Bool)
      → object_matches unstructured decode_base64 parse_quantity quantity_equal spare
          compliance_type desired_obj fs object
        ≡ some b
      → b ≡ is_match desired_obj fs object
  unfolding object_matches
  object_matches_lem desired_obj end object b h = some_inj _ _ (sym h)
  object_matches_lem desired_obj (field key v fs) object b h =
      both_agree_lem _ _ b (is_match desired_obj fs object) h
        (λ d e. object_matches_lem desired_obj fs object d e)

  -- Unless a comparison panics, for a template that holds no list under a key of its own,
  -- `buildNameList` returns, in their order, the names of the objects that agree with every key of
  -- the template.
  pub build_name_list_lem :
      (desired_obj : Fields)
      → holds_list desired_obj ≡ false
      → (objects : List Fields) (names : List String)
      → build_name_list unstructured decode_base64 parse_quantity quantity_equal spare
          compliance_type desired_obj objects
        ≡ some names
      → names
        ≡ map
            (λ (object : Fields). unstructured.get_name object)
            (keep (is_match desired_obj desired_obj) objects)
  unfolding build_name_list template_after
  build_name_list_lem desired_obj no_list [] names h = some_inj _ _ (sym h)
  build_name_list_lem desired_obj no_list (object ∷ objects) names h =
      add_name_lem (unstructured.get_name object) _ _ names _
        (is_match desired_obj desired_obj object) h
        (λ d e. object_matches_lem desired_obj desired_obj object d e)
        (λ ks e.
          build_name_list_lem desired_obj no_list objects ks
            (rw (desired_after_no_list desired_obj desired_obj object no_list) at e))
      ∙ pushed (is_match desired_obj desired_obj object)
    where
      pushed :
          (b : Bool)
          → (if b
              then unstructured.get_name object
                ∷ map
                    (λ (x : Fields). unstructured.get_name x)
                    (keep (is_match desired_obj desired_obj) objects)
              else map
                  (λ (x : Fields). unstructured.get_name x)
                  (keep (is_match desired_obj desired_obj) objects))
            ≡ map
                (λ (x : Fields). unstructured.get_name x)
                (if b
                  then object ∷ keep (is_match desired_obj desired_obj) objects
                  else keep (is_match desired_obj desired_obj) objects)
      pushed true = refl
      pushed false = refl
