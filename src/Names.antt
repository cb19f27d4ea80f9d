-- ===== src/Names.antt =====
-- The objects that an object template without a name matches: `buildNameList` and
-- `getMatchingNames` of controllers/configurationpolicy_controller.go. The listing of the objects
-- is a parameter.
pub mod Listed
pub mod Tests
use config_policy_controller.Prelude.{
  ℕ, String, Bool, true, false, not, ◌&&◌, Option, none, some, List, [], ◌∷◌, map, if◌then◌else◌,
}
use config_policy_controller.Policy.{ComplianceType}
use config_policy_controller.Json.{Fields, end, field}
use config_policy_controller.Keys.Writes.{desired_after}
use config_policy_controller.Keys.{
  Unstructured, KeyResult, skipped, panicked, failed, handled, handle_single_key,
}

-- Whether a key of the template is no mismatch.
abbrev pub agrees : KeyResult → Bool
agrees skipped = true
agrees panicked = false
agrees (failed message) = false
agrees (handled update_needed merged) = not update_needed

abbrev pub both_agree : KeyResult → Option Bool → Option Bool
both_agree panicked rest = none
both_agree skipped rest = rest
both_agree (failed message) rest = elim rest [ none ↦ none | some b ↦ some false ]
both_agree (handled u m) rest = elim rest [ none ↦ none | some b ↦ some (not u && b) ]

abbrev pub add_name : String → Option Bool → Option (List String) → Option (List String)
add_name name none rest = none
add_name name (some b) none = none
add_name name (some b) (some names) = some (if b then name ∷ names else names)

module _ (unstructured : Unstructured) (decode_base64 : String → Option String) {Quantity : Type 0}
    (parse_quantity : String → Option Quantity) (quantity_equal : Quantity → Quantity → Bool)
    (spare : String → ℕ) (compliance_type : ComplianceType) where
  abbrev pub key_result : Fields → Fields → String → KeyResult
  key_result desired_obj object key =
      handle_single_key unstructured decode_base64 parse_quantity quantity_equal key desired_obj
        object compliance_type true

  -- The inner loop of `buildNameList`; `none` is a panic.
  unfoldable pub object_matches : Fields → Fields → Fields → Option Bool
  unfolding handle_single_key
  object_matches desired_obj end object = some true
  object_matches desired_obj (field key v fs) object =
      both_agree (key_result desired_obj object key) (object_matches desired_obj fs object)

  -- What the comparison with an object leaves of the desired object.
  unfoldable pub template_after : Fields → Fields → Fields
  unfolding desired_after
  template_after desired_obj object =
      desired_after parse_quantity quantity_equal spare desired_obj desired_obj object
        compliance_type "" true

  -- `buildNameList`: the next object is compared with what the ones before it left of the desired
  -- object.
  unfoldable pub build_name_list : Fields → List Fields → Option (List String)
  unfolding object_matches template_after
  build_name_list desired_obj [] = some []
  build_name_list desired_obj (object ∷ objects) =
      add_name (unstructured.get_name object) (object_matches desired_obj desired_obj object)
        (build_name_list (template_after desired_obj object) objects)

  -- `getMatchingNames`, for the listed objects if they could be listed: the names that match, and all
  -- names.
  unfoldable pub get_matching_names :
      Fields → Option (List Fields) → Option (List String) × List String
  unfolding build_name_list
  get_matching_names desired_obj none = (some [], [])
  get_matching_names desired_obj (some objects) = (
    build_name_list desired_obj objects,
    map (λ (object : Fields). unstructured.get_name object) objects,
  )
