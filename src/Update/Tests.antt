-- ===== src/Update/Tests.antt =====
-- Runs of the check of one object, and its theorems at a concrete cluster.
use config_policy_controller.Prelude.{
  ℕ, zero, suc, ◌+◌, ◌≤◌, String, ◌≡◌, refl, true, false, none, some, [], arith,
}
use config_policy_controller.Policy.{is_inform, is_enforce}
use config_policy_controller.Json.{str, obj, Fields, end, field}
use config_policy_controller.Json.Equal.{deep_equal}
use config_policy_controller.Json.Print.{sprint, sort_and_sprint}
use config_policy_controller.Compare.{equal_obj_with_sort}
use config_policy_controller.Compare.Tests.{no_quantities}
use config_policy_controller.Merge.{compare_specs}
use config_policy_controller.Keys.{handle_keys}
use config_policy_controller.Keys.Tests.{plain, no_decoding}
use config_policy_controller.Prelude.Text.{str_eq}
use config_policy_controller.Evaluated.{set_evaluated_object}
use config_policy_controller.Diff.{handle_diff, redacted, record_diff_with_default}
use config_policy_controller.Diff.Tests.{plain_differ}
use config_policy_controller.Update.{
  ApiError, Answer, answered, rejected, deleted, Client, Environment, Job, Outcome, Session,
  returns, remove_fields_for_comparison,
}
use config_policy_controller.Update.Once.{check_and_update_resource, record_evaluated, diff_between}
use config_policy_controller.Update.Total.{
  conflicts, IsBounded, Ends, check_and_update_resource-Ends,
}
use config_policy_controller.Update.Inform.{IsStored, check_and_update_resource-stored}
use config_policy_controller.Update.Recorded.{IsRecorded, check_and_update_resource-IsRecorded}
use config_policy_controller.Enforce.{
  Requests, SingleObject, Checked, created, accepted, handle_single_obj,
}
use config_policy_controller.Update.Handling.{checked_of, Runs, handle_single_obj-stored}

abbrev config_map : String → Fields
config_map a = field "kind" (str "ConfigMap") (field "data" (obj (field "a" (str a) end)) end)

abbrev conflict : ApiError
conflict = record {
  text = "the object has been modified";
  is_conflict = true;
  is_invalid = false;
  is_bad_request = false;
  is_not_found = false;
  is_already_exists = false;
}

-- A cluster of the conflicts that are still to come, and the object that it stores.
abbrev dry_run_of : Fields → ℕ × Fields → (ℕ × Fields) × Answer
dry_run_of o (zero, stored) = ((zero, stored), answered o)
dry_run_of o (suc n, stored) = ((n, stored), rejected conflict)

abbrev busy : Client (ℕ × Fields)
busy = record {
  dry_run_update = dry_run_of;
  update = λ o w. ((w.0, o), answered o);
  create = λ o w. ((w.0, o), answered o);
  delete = λ name w. (w, deleted);
  get = λ name w. (w, answered w.1);
}

abbrev env : Environment (ℕ × Fields) String
env = record {
  client = busy;
  unstructured = plain;
  accessors = record {
    get_uid = λ o. "u";
    get_resource_version = λ o. "7";
    remove_nested_field = λ a b c o. o;
  };
  differ = plain_differ;
  decode_base64 = no_decoding;
  parse_quantity = no_quantities;
  quantity_equal = str_eq;
  old_server = false;
  validate_object = λ o. none;
  spare = λ key. 0;
}

abbrev job : String → Job
job remediation = record {
  policy_uid = "p";
  resource = "configmaps";
  namespaced = true;
  name = "c";
  namespace = "n";
  desired_obj = config_map "1";
  compliance_type = "musthave";
  metadata_compliance_type = "";
  record_diff = "";
  template_kind = some ("", "Secret");
  recreate_option = "";
  remediation = remediation;
  full_diffs = false;
}

abbrev start : Session (ℕ × Fields)
start = record { world = (1, config_map "2"); cache = [] }

abbrev enforced : Session (ℕ × Fields)
enforced = record {
  world = (0, config_map "1");
  cache = set_evaluated_object [] "p" "u" "7" true "";
}

abbrev updated : Outcome
updated = record {
  throw_spec_violation = false;
  message = "";
  diff = redacted;
  update_needed = true;
  updated_obj = some (config_map "1");
}

abbrev informed : Session (ℕ × Fields)
informed = record {
  world = (0, config_map "2");
  cache = set_evaluated_object [] "p" "u" "7" false "";
}

abbrev mismatched : Outcome
mismatched = record {
  throw_spec_violation = true;
  message = "";
  diff = redacted;
  update_needed = false;
  updated_obj = none;
}

-- After one conflict the object is updated.
enforcing :
    check_and_update_resource env (job "enforce") 2 (some (config_map "2")) start
    ≡ returns enforced updated
unfolding check_and_update_resource handle_keys equal_obj_with_sort compare_specs sprint
    sort_and_sprint deep_equal remove_fields_for_comparison record_evaluated handle_diff is_inform
    set_evaluated_object diff_between record_diff_with_default
enforcing = refl

informing :
    check_and_update_resource env (job "inform") 2 (some (config_map "2")) start
    ≡ returns informed mismatched
unfolding check_and_update_resource handle_keys equal_obj_with_sort compare_specs sprint
    sort_and_sprint deep_equal remove_fields_for_comparison record_evaluated handle_diff is_inform
    set_evaluated_object diff_between record_diff_with_default
informing = refl

informs : is_inform "inform" ≡ true
unfolding is_inform
informs = refl

abbrev conflicts_left : ℕ × Fields → ℕ
conflicts_left w = w.0

abbrev stored_object : ℕ × Fields → Fields
stored_object w = w.1

busy-IsBounded : IsBounded busy conflicts_left
busy-IsBounded = record {
  dry_runs = dry;
  updates = λ o w. omega arith;
  creates = λ o w. omega arith;
  deletes = λ n w. omega arith;
  gets = λ n w. omega arith;
}
  where
    dry : (o : Fields) (w : ℕ × Fields) → (dry_run_of o w).0.0 + conflicts (dry_run_of o w).1 ≤ w.0
    dry o (zero, stored) = omega arith
    dry o (suc n, stored) = omega arith

busy-IsStored : IsStored busy stored_object
busy-IsStored = record { dry_runs = dry; gets = λ n w. refl }
  where
    dry : (o : Fields) (w : ℕ × Fields) → (dry_run_of o w).0.1 ≡ w.1
    dry o (zero, stored) = refl
    dry o (suc n, stored) = refl

check_and_update_resource-Ends_example :
    Ends env
      (job "enforce")
      conflicts_left
      busy-IsBounded
      (check_and_update_resource env (job "enforce") 2 (some (config_map "2")) start)
check_and_update_resource-Ends_example =
    check_and_update_resource-Ends env conflicts_left busy-IsBounded (job "enforce") 2
      (some (config_map "2")) start (omega arith)

check_and_update_resource-stored_example : stored_object informed.world ≡ stored_object start.world
check_and_update_resource-stored_example =
    check_and_update_resource-stored env (job "inform") stored_object busy-IsStored informs 2
      (some (config_map "2")) start informed mismatched informing

check_and_update_resource-IsRecorded_example :
    IsRecorded env (job "enforce") start.cache enforced.cache updated
check_and_update_resource-IsRecorded_example =
    check_and_update_resource-IsRecorded env (job "enforce") 2 (some (config_map "2")) start
      enforced updated enforcing

abbrev informing_check : Session (ℕ × Fields) → Session (ℕ × Fields) × Checked
informing_check s = (informed, checked_of env (job "inform") mismatched)

informing-Runs : Runs env (job "inform") (config_map "2") 2 informing_check start
informing-Runs = record { outcome = mismatched; returned = informing; checked = refl }

-- No other request is expected.
abbrev idle : Requests (Session (ℕ × Fields))
idle = record {
  create = λ s. (s, created "u");
  delete = λ s. (s, accepted);
  watch_namespace = λ s. (s, none);
}

abbrev single : SingleObject
single = record {
  resource = "configmaps";
  namespaced = true;
  name = "c";
  namespace = "n";
  using_watch = true;
  should_exist = true;
  has_status = false;
}

gentle : is_enforce "inform" ≡ false
unfolding is_enforce
gentle = refl

handle_single_obj-stored_example :
    let r =
      handle_single_obj idle informing_check single "inform"
        (some "u")
        (false, false, "")
        []
        start in
    (stored_object r.0.world ≡ stored_object start.world) × (r.1.0.enforcement_err ≡ none)
handle_single_obj-stored_example =
    handle_single_obj-stored env (job "inform") stored_object idle (config_map "2") 2
      informing_check start informing-Runs busy-IsStored informs gentle single (some "u")
      (false, false, "") []
