-- ===== src/Keys/Writes.antt =====
-- What `handleSingleKey` and the loops over it write into the desired object: its lists are shared with
-- `mergeArrays` of controllers/configurationpolicy_controller.go. The spare capacities of the lists
-- are parameters.
use config_policy_controller.Prelude.{ℕ, String, Bool, ◌||◌, Option, if◌then◌else◌}
use config_policy_controller.Prelude.Text.{str_eq}
use config_policy_controller.Policy.{ComplianceType}
use config_policy_controller.Json.{Value, arr, Fields, end, field, lookup, insert, or_null}
use config_policy_controller.Merge.{write_arrays}
use config_policy_controller.Keys.{key_type, format_template}

module _ {Quantity : Type 0} (parse_quantity : String → Option Quantity)
    (quantity_equal : Quantity → Quantity → Bool) where
  abbrev pub written_list : ℕ → String → Fields → Value → Value → ComplianceType → Bool → Fields
  written_list spare key desired_obj (arr ds) existing ctype zero_equals_nil = elim existing [
    | arr es ↦
        insert key
          (arr (write_arrays parse_quantity quantity_equal ctype zero_equals_nil spare ds es))
          desired_obj
    | _ ↦ desired_obj
  ]
  written_list spare key desired_obj _ existing ctype zero_equals_nil = desired_obj

  -- The desired object after `handleSingleKey`, which shares its lists with `mergeArrays`. Maps are
  -- copied before they are merged. The lists have the given spare capacities.
  unfoldable pub write_desired :
      (String → ℕ) → String → Fields → Fields → ComplianceType → Bool → Fields
  unfolding format_template
  write_desired spare key desired_obj existing_obj ctype zero_equals_nil =
      if str_eq key "apiVersion" || str_eq key "kind"
      then desired_obj
      else written_list (spare key) key desired_obj (format_template desired_obj key)
          (or_null (lookup key existing_obj)) ctype zero_equals_nil

  -- The desired object after a loop over its keys. What the loop writes under a key it does not read
  -- again.
  unfoldable pub desired_after :
      (String → ℕ) → Fields → Fields → Fields → ComplianceType → ComplianceType → Bool → Fields
  unfolding write_desired
  desired_after spare end desired_obj existing_obj comp_type md_comp_type zero_equals_nil =
      desired_obj
  desired_after spare (field key v fs) desired_obj existing_obj comp_type md_comp_type
        zero_equals_nil =
      desired_after spare fs
        (write_desired spare key desired_obj existing_obj (key_type key comp_type md_comp_type)
          zero_equals_nil)
        existing_obj comp_type md_comp_type zero_equals_nil
