-- ===== src/Keys.antt =====
-- Comparing and merging an object key by key: `handleKeys` and `handleSingleKey` of
-- controllers/configurationpolicy_controller.go, with the metadata formatting of
-- controllers/configurationpolicy_utils.go. The accessors of k8s.io/apimachinery's `unstructured`
-- package and the base64 decoding are parameters. A Go map is visited in the order of its fields
-- here. Of the logging nothing is kept.
pub mod Writes
pub mod Steps
pub mod Lookup
pub mod Update
pub mod Mismatch
pub mod Single
pub mod Tests
use config_policy_controller.Prelude.{
  String, Bool, true, false, not, ◌&&◌, ◌||◌, Option, none, some, List, [], ◌∷◌, is_some,
  if◌then◌else◌,
}
use config_policy_controller.Prelude.Text.{str_eq, has_prefix, ◌<>◌}
use config_policy_controller.Policy.{ComplianceType, is_must_only_have}
use config_policy_controller.Json.{
  Value, null, bool, num, str, arr, obj, Fields, end, field, lookup, insert, delete, or_null,
}
use config_policy_controller.Compare.{equal_obj_with_sort}
use config_policy_controller.Merge.{merge_arrays, compare_specs}

-- `filterUnwantedAnnotations`
abbrev pub filter_unwanted_annotations : Fields → Fields
filter_unwanted_annotations end = end
filter_unwanted_annotations (field key val fs) =
    let rest = filter_unwanted_annotations fs in
    if not (str_eq key "kubectl.kubernetes.io/last-applied-configuration")
    then field key val rest
    else rest

abbrev format_annotations : Value → Value
format_annotations (obj annos) = obj (filter_unwanted_annotations annos)
format_annotations other = other

-- `formatMetadata`
unfoldable pub format_metadata : Fields → Fields
format_metadata metadata =
    let annotated : Fields = elim (lookup "annotations" metadata) [
      | none ↦ end
      | some annos ↦ field "annotations" (format_annotations annos) end
    ] in
    elim (lookup "labels" metadata) [
      | none ↦ annotated
      | some labels ↦ field "labels" labels annotated
    ]

-- `formatTemplate`
unfoldable pub format_template : Fields → String → Value
unfolding format_metadata
format_template object key =
    if str_eq key "metadata"
    then elim (lookup key object) [
      | some (obj metadata) ↦ obj (format_metadata metadata)
      | _ ↦ obj end
    ]
    else or_null (lookup key object)

-- The loop that copies the annotations which OpenShift sets on a namespace.
unfoldable pub copy_scc : Fields → Fields → Fields
copy_scc end merged_annos = merged_annos
copy_scc (field key val fs) merged_annos = copy_scc fs (
    if not (has_prefix key "openshift.io/sa.scc.")
    then merged_annos
    else if is_some (lookup key merged_annos)
    then merged_annos
    else insert key val merged_annos)

abbrev without : String → Fields → Fields → Fields
without key merged existing = if is_some (lookup key merged) then existing else delete key existing

-- `fmtMetadataForCompare`
unfoldable pub fmt_metadata_for_compare : Fields → Fields → Bool → Fields × Fields
unfolding format_metadata copy_scc
fmt_metadata_for_compare merged existing keep_scc =
    let m = format_metadata merged in
    let e = without "annotations" m (without "labels" m (format_metadata existing)) in
    if not (is_some (lookup "annotations" m))
    then (m, e)
    else if not keep_scc
    then (m, e)
    else elim (lookup "annotations" e) [
      | some (obj existing_annos) ↦ elim (lookup "annotations" m) [
        | some (obj merged_annos) ↦
            (insert "annotations" (obj (copy_scc existing_annos merged_annos)) m, e)
        | _ ↦ (m, e)
      ]
      | _ ↦ (m, e)
    ]

-- What reading a map of strings gives: nothing there, something else there, or its entries.
pub data StringMap : Type 0 where
  missing wrong_type : StringMap
  strings : List (String × String) → StringMap

-- The accessors of an unstructured object.
pub record Unstructured : Type 0 where
  pub get_kind : Fields → String
  pub get_api_version : Fields → String
  pub get_name : Fields → String
  pub is_namespace : Fields → Bool
  pub nested_string_map : Fields → String → StringMap
  pub set_annotations : StringMap → Fields → Fields
  pub set_labels : StringMap → Fields → Fields

-- The result of `handleSingleKey`. A failed type assertion panics.
pub data KeyResult : Type 0 where
  skipped panicked : KeyResult
  failed : String → KeyResult
  handled : Bool → Value → KeyResult

-- What `handleKeys` updates: the existing object and its results.
pub record Handled : Type 0 where
  pub existing_obj : Fields
  pub throw_spec_violation : Bool
  pub update_needed : Bool
  pub status_mismatch : Bool

-- How `handleKeys` ends: with its results, at a key that failed, or in a panic.
pub data KeysResult : Type 0 where
  finished : Handled → KeysResult
  stopped : String → Handled → KeysResult
  crashed : KeysResult

-- Decoding the data of a secret; `none` if a value is no base64.
unfoldable pub decode_all : (String → Option String) → List (String × String) → Option Fields
decode_all decode [] = some end
decode_all decode ((k, encoded) ∷ rest) = elim (decode encoded) [
  | none ↦ none
  | some decoded ↦ elim (decode_all decode rest) [
    | none ↦ none
    | some more ↦ some (field k (str decoded) more)
  ]
]

unfoldable pub note_key : String → Bool → Handled → Handled
note_key key key_update_needed h =
    if not key_update_needed
    then h
    else if str_eq key "status"
    then record h { throw_spec_violation = true; status_mismatch = true }
    else record h { update_needed = true }

abbrev pub key_type : String → ComplianceType → ComplianceType → ComplianceType
key_type key comp_type md_comp_type =
    if str_eq key "metadata" && not (str_eq md_comp_type "") then md_comp_type else comp_type

module _ (unstructured : Unstructured) where
  -- What a handled key changes: only labels and annotations of the metadata are taken over.
  unfoldable pub write_key : String → Value → Fields → Fields
  write_key key merged existing_obj =
      let metadata : Fields = elim merged [ obj fs ↦ fs | _ ↦ end ] in
      if str_eq key "metadata"
      then unstructured.set_labels (unstructured.nested_string_map metadata "labels") (
          unstructured.set_annotations (unstructured.nested_string_map metadata "annotations")
            existing_obj)
      else insert key merged existing_obj

  -- A key that `mustonlyhave` removes from the existing object.
  unfoldable pub is_extra : String → Fields → Fields → Bool
  is_extra key desired_obj existing_obj =
      not (is_some (lookup key desired_obj) || (str_eq key "status" || str_eq key "metadata"))
      && not (
          (str_eq (unstructured.get_kind existing_obj) "ServiceAccount"
            && str_eq (unstructured.get_api_version existing_obj) "v1")
          && (str_eq key "secrets" || str_eq key "imagePullSecrets"))

  -- The loop of `handleKeys` over the keys of the existing object.
  unfoldable pub remove_extra : Fields → Fields → Handled → Handled
  unfolding is_extra
  remove_extra end desired_obj h = h
  remove_extra (field key v fs) desired_obj h = remove_extra fs desired_obj (
      if is_extra key desired_obj (h.existing_obj)
      then record h { existing_obj = delete key (h.existing_obj); update_needed = true }
      else h)

module _ (unstructured : Unstructured) (decode_base64 : String → Option String) {Quantity : Type 0}
    (parse_quantity : String → Option Quantity) (quantity_equal : Quantity → Quantity → Bool) where
  -- The type switch of `handleSingleKey`; `none` is the type error.
  unfoldable pub merge_key : Value → Value → ComplianceType → Bool → Option Value
  merge_key (arr ds) existing ctype zero_equals_nil = elim existing [
    | arr es ↦ some (arr (merge_arrays parse_quantity quantity_equal ctype zero_equals_nil ds es))
    | null ↦ some (arr ds)
    | _ ↦ none
  ]
  merge_key (obj df) existing ctype zero_equals_nil = elim existing [
    | obj ef ↦ some (obj (compare_specs parse_quantity quantity_equal ctype zero_equals_nil df ef))
    | null ↦ some (obj df)
    | _ ↦ none
  ]
  merge_key desired existing ctype zero_equals_nil = some desired

  -- The comparison at the end of `handleSingleKey`.
  abbrev pub compared : Value → Value → Bool → KeyResult
  compared merged existing zero_equals_nil =
      handled
        (not (equal_obj_with_sort parse_quantity quantity_equal merged existing zero_equals_nil))
        merged

  -- The special cases between the merge and the comparison.
  unfoldable pub compare_key : String → Fields → Fields → Value → Value → Bool → KeyResult
  unfolding fmt_metadata_for_compare decode_all
  compare_key key desired_obj existing_obj merged existing zero_equals_nil =
      if str_eq key "metadata"
      then elim merged [
        | obj mf ↦ elim existing [
          | obj ef ↦
              let (m, e) = fmt_metadata_for_compare mf ef (unstructured.is_namespace desired_obj) in
              compared (obj m) (obj e) zero_equals_nil
          | _ ↦ panicked
        ]
        | _ ↦ panicked
      ]
      else if str_eq key "stringData" && str_eq (unstructured.get_kind existing_obj) "Secret"
      then elim (unstructured.nested_string_map existing_obj "data") [
        | wrong_type ↦ failed "Error accessing encoded data"
        | missing ↦ compared merged (obj end) zero_equals_nil
        | strings encoded ↦ elim (decode_all decode_base64 encoded) [
          | none ↦ failed ("Error decoding secret: " <> unstructured.get_name existing_obj)
          | some decoded ↦ compared merged (obj decoded) zero_equals_nil
        ]
      ]
      else compared merged existing zero_equals_nil

  -- `handleSingleKey`. What it writes into the desired object is in Keys/Writes.
  unfoldable pub handle_single_key : String → Fields → Fields → ComplianceType → Bool → KeyResult
  unfolding compare_key merge_key format_template
  handle_single_key key desired_obj existing_obj ctype zero_equals_nil =
      let existing = or_null (lookup key existing_obj) in
      if str_eq key "apiVersion" || str_eq key "kind"
      then skipped
      else elim (merge_key (format_template desired_obj key) existing ctype zero_equals_nil) [
        | none ↦ failed (
            "Error merging changes into key \"" <> key
            <> "\": object type of template and existing do not match")
        | some merged ↦ compare_key key desired_obj existing_obj merged existing zero_equals_nil
      ]

  -- The loop of `handleKeys` over the keys of the desired object.
  unfoldable pub handle_each :
      Fields → Fields → Fields → ComplianceType → ComplianceType → Handled → KeysResult
  unfolding handle_single_key write_key note_key
  handle_each end desired_obj copy comp_type md_comp_type h = finished h
  handle_each (field key v fs) desired_obj copy comp_type md_comp_type h =
      elim (handle_single_key key desired_obj copy (key_type key comp_type md_comp_type) false) [
        | panicked ↦ crashed
        | failed message ↦
            stopped message (record h { throw_spec_violation = true; update_needed = true })
        | skipped ↦ handle_each fs desired_obj copy comp_type md_comp_type h
        | handled key_update_needed merged ↦
            handle_each fs desired_obj copy comp_type md_comp_type (
              note_key key key_update_needed
                (record h { existing_obj = write_key unstructured key merged (h.existing_obj) }))
      ]

  -- `handleKeys`, the existing object twice: as it is updated, and the copy that is compared.
  unfoldable pub handle_keys :
      Fields → Fields → Fields → ComplianceType → ComplianceType → KeysResult
  unfolding handle_each remove_extra
  handle_keys desired_obj existing_obj copy comp_type md_comp_type =
      let initial : Handled = record {
        existing_obj = existing_obj;
        throw_spec_violation = false;
        update_needed = false;
        status_mismatch = false;
      } in
      elim (handle_each desired_obj desired_obj copy comp_type md_comp_type initial) [
        | finished h ↦ finished (
            if is_must_only_have comp_type
            then remove_extra unstructured (h.existing_obj) desired_obj h
            else h)
        | other ↦ other
      ]
