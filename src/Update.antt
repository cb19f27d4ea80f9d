-- ===== src/Update.antt =====
-- The check of one object against its template, with the dry run, the update or the recreation:
-- `checkAndUpdateResource`, `getMsgPrefix`, `getUpdateErrorMsg` and `removeFieldsForComparison` of
-- controllers/configurationpolicy_controller.go. The API server and the accessors of unstructured
-- objects are parameters. One pass of the function is a step that may ask for another one after a
-- conflict; the recursion goes by fuel.
pub mod Once
pub mod Total
pub mod Inform
pub mod Recorded
pub mod Evidence
pub mod Handling
pub mod Tests
use config_policy_controller.Prelude.{
  ℕ, zero, suc, String, Bool, true, false, not, ◌&&◌, ◌||◌, Option, none, some, if◌then◌else◌,
}
use config_policy_controller.Prelude.Text.{str_eq, contains, ◌<>◌}
use config_policy_controller.Policy.{RemediationAction, ComplianceType, is_inform}
use config_policy_controller.Json.{Fields, obj}
use config_policy_controller.Json.Equal.{deep_equal}
use config_policy_controller.Keys.{
  Unstructured, Handled, finished, stopped, crashed, KeysResult, handle_keys,
}
use config_policy_controller.Evaluated.{ProcessedPolicyCache, set_evaluated_object}
use config_policy_controller.Diff.{RecordDiff, Differ, handle_diff}

-- An error of the API server: its text, and what the tests of the package k8serrors say of it.
pub record ApiError : Type 0 where
  pub text : String
  pub is_conflict : Bool
  pub is_invalid : Bool
  pub is_bad_request : Bool
  pub is_not_found : Bool
  pub is_already_exists : Bool

pub data Answer : Type 0 where
  answered : Fields → Answer
  rejected : ApiError → Answer

-- The answer to a deletion.
pub data Deletion : Type 0 where
  deleted : Deletion
  undeleted : ApiError → Deletion

-- The requests on the resource and namespace of the object.
pub record Client (World : Type 0) : Type 0 where
  pub dry_run_update : Fields → World → World × Answer
  pub update : Fields → World → World × Answer
  pub create : Fields → World → World × Answer
  pub delete : String → World → World × Deletion
  pub get : String → World → World × Answer

-- What the code reads of an unstructured object, beside the accessors of `handleKeys`, and the
-- removal of a nested field: `none` for two names, or a third one.
pub record Accessors : Type 0 where
  pub get_uid : Fields → String
  pub get_resource_version : Fields → String
  pub remove_nested_field : String → String → Option String → Fields → Fields

-- The policy and the object template, as far as they are read here; `template_kind` is the group and
-- the kind of the template's object if it can be decoded, `full_diffs` the controller's setting.
pub record Job : Type 0 where
  pub policy_uid : String
  pub resource : String
  pub namespaced : Bool
  pub name : String
  pub namespace : String
  pub desired_obj : Fields
  pub compliance_type : ComplianceType
  pub metadata_compliance_type : ComplianceType
  pub record_diff : RecordDiff
  pub template_kind : Option (String × String)
  pub recreate_option : String
  pub remediation : RemediationAction
  pub full_diffs : Bool

pub record Outcome : Type 0 where
  pub throw_spec_violation : Bool
  pub message : String
  pub diff : String
  pub update_needed : Bool
  pub updated_obj : Option Fields

-- The state that the check changes: the cluster, and the cache of evaluated objects.
pub record Session (World : Type 0) : Type 0 where
  pub world : World
  pub cache : ProcessedPolicyCache

-- How a pass ends: with a result, with a newly read object for another pass, or in a panic.
pub data Pass (World : Type 0) : Type 0 where
  done : Session World → Outcome → Pass World
  again : Fields → Session World → Pass World
  panicked : Pass World

-- How the check ends: with a result, in a panic, or not within the fuel.
pub data Ending (World : Type 0) : Type 0 where
  returns : Session World → Outcome → Ending World
  panics out_of_fuel : Ending World

abbrev pub at_world : {World : Type 0} → Session World → World → Session World
at_world s w = record s { world = w }

-- `getMsgPrefix`
unfoldable pub get_msg_prefix : Job → String
get_msg_prefix job =
    let namespace_msg = if job.namespaced then " in namespace " <> job.namespace else "" in
    job.resource <> (" [" <> (job.name <> ("]" <> namespace_msg)))

-- `getUpdateErrorMsg`
unfoldable pub get_update_error_msg : ApiError → String → String → String
get_update_error_msg e kind name =
    if e.is_not_found
    then "`" <> (kind <> "` is not present and must be created")
    else if contains e.text "strict decoding error:"
    then "Error validating the object " <> (name <> (", the error is `" <> (e.text <> "`")))
    else ""

-- The message of `getUpdateErrorMsg`, or another one if it has none.
abbrev pub message_or : String → String → String
message_or message other = if str_eq message "" then other else message

abbrev pub violation : String → String → Bool → Outcome
violation message diff update_needed = record {
  throw_spec_violation = true;
  message = message;
  diff = diff;
  update_needed = update_needed;
  updated_obj = none;
}

abbrev pub no_violation : Outcome
no_violation = record {
  throw_spec_violation = false;
  message = "";
  diff = "";
  update_needed = false;
  updated_obj = none;
}

-- `removeFieldsForComparison`
unfoldable pub remove_fields_for_comparison : Accessors → Fields → Fields
remove_fields_for_comparison accessors object =
    accessors.remove_nested_field "metadata" "generation" none (
      accessors.remove_nested_field "metadata" "annotations"
        (some "kubectl.kubernetes.io/last-applied-configuration")
        (accessors.remove_nested_field "metadata" "managedFields" none object))

abbrev pub still_there : Answer → Bool
still_there (answered updated) = false
still_there (rejected e) = e.is_already_exists

-- The loop that creates the object again: `none` if it was still there at each of the attempts.
unfoldable pub create_until :
    {World : Type 0} → (World → World × Answer) → ℕ → World → World × Option Answer
create_until create zero w = (w, none)
create_until create (suc attempts) w =
    let (w', answer) = create w in
    let rest = create_until create attempts w' in
    if still_there answer then rest else (w', some answer)

abbrev pub max_attempts : ℕ
max_attempts = 3

-- What is given to the check. `old_server` says that the server is older than 1.25, where the
-- object is validated first; `validate_object` gives the error. `spare` is the spare capacity that
-- the lists of the desired object have in memory.
pub record Environment (World : Type 0) (Quantity : Type 0) : Type 0 where
  pub client : Client World
  pub unstructured : Unstructured
  pub accessors : Accessors
  pub differ : Differ
  pub decode_base64 : String → Option String
  pub parse_quantity : String → Option Quantity
  pub quantity_equal : Quantity → Quantity → Bool
  pub old_server : Bool
  pub validate_object : Fields → Option String
  pub spare : String → ℕ
