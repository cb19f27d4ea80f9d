-- ===== src/Update/Once.antt =====
-- One pass of `checkAndUpdateResource` of controllers/configurationpolicy_controller.go, branch by
-- branch, and the recursion after a conflict.
use config_policy_controller.Prelude.{
  ℕ, zero, suc, String, Bool, true, false, not, ◌&&◌, ◌||◌, Option, none, some, if◌then◌else◌,
}
use config_policy_controller.Prelude.Text.{str_eq, ◌<>◌}
use config_policy_controller.Policy.{is_inform}
use config_policy_controller.Json.{Fields, obj}
use config_policy_controller.Json.Equal.{deep_equal}
use config_policy_controller.Keys.Writes.{desired_after}
use config_policy_controller.Keys.{Handled, KeysResult, finished, stopped, crashed, handle_keys}
use config_policy_controller.Evaluated.{set_evaluated_object}
use config_policy_controller.Diff.{RecordDiff, record_diff_with_default, handle_diff}
use config_policy_controller.Update.{
  ApiError, Answer, answered, rejected, Deletion, deleted, undeleted, Environment, Job, Session,
  at_world, Ending, returns, panics, out_of_fuel, Pass, done, again, panicked, get_msg_prefix,
  get_update_error_msg, message_or, violation, no_violation, remove_fields_for_comparison,
  create_until, max_attempts,
}

module _ {World Quantity : Type 0} (env : Environment World Quantity) (job : Job) where
  -- `setEvaluatedObject` for the policy and an object.
  unfoldable pub record_evaluated : Fields → Bool → String → Session World → Session World
  record_evaluated object compliant msg s = record s {
    cache =
        set_evaluated_object (s.cache) job.policy_uid (env.accessors.get_uid object)
          (env.accessors.get_resource_version object) compliant msg;
  }

  abbrev pub record_diff : RecordDiff
  record_diff = record_diff_with_default job.record_diff job.template_kind

  unfoldable pub diff_between : Fields → Fields → String
  diff_between before after = handle_diff env.differ record_diff before after job.full_diffs

  abbrev pub stripped : Fields → Fields
  stripped object = remove_fields_for_comparison env.accessors object

  -- After a conflict: the object is read again, or else the error is handled as any other.
  abbrev pub got : (Session World → Pass World) → Session World → Answer → Pass World
  got failing s (answered rv) = again rv s
  got failing s (rejected e) = failing s

  unfoldable pub refetched : Handled → (Session World → Pass World) → Session World → Pass World
  refetched h failing s =
      let (w, answer) = env.client.get (env.unstructured.get_name h.existing_obj) s.world in
      got failing (at_world s w) answer

  unfoldable pub after_error :
      Handled → (Session World → Pass World) → ApiError → Session World → Pass World
  unfolding refetched
  after_error h failing e s = if e.is_conflict then refetched h failing s else failing s

  unfoldable pub apply_failed : String → Handled → String → ApiError → Session World → Pass World
  apply_failed action h diff e s = done s (
      violation
        (message_or (get_update_error_msg e (env.unstructured.get_kind h.existing_obj) job.name) (
          get_msg_prefix job
          <> (" failed to " <> (action <> (" with the error `" <> (e.text <> "`"))))))
        diff h.update_needed)

  -- The object is updated or recreated, or the request failed.
  unfoldable pub applied : String → Handled → String → Session World → Answer → Pass World
  unfolding after_error apply_failed record_evaluated
  applied action h diff s (answered updated) =
      done (if not h.status_mismatch then record_evaluated updated true "" s else s) (record {
        throw_spec_violation = h.throw_spec_violation;
        message = "";
        diff = diff;
        update_needed = h.update_needed;
        updated_obj = some updated;
      })
  applied action h diff s (rejected e) = after_error h (apply_failed action h diff e) e s

  -- The loop of creations ended: the object was still there each time, or there is an answer.
  unfoldable pub created_again : Handled → String → Session World → Option Answer → Pass World
  unfolding applied
  created_again h diff s none = done s (
      violation
        (get_msg_prefix job
          <> " timed out waiting for the object to delete during recreate, will retry on the next policy evaluation")
        "" h.update_needed)
  created_again h diff s (some a) = applied "recreate" h diff s a

  unfoldable pub recreated : Handled → String → Session World → Pass World
  unfolding created_again
  recreated h diff s =
      let (w, answer) = create_until (env.client.create job.desired_obj) max_attempts s.world in
      created_again h diff (at_world s w) answer

  unfoldable pub deletion_answered : Handled → String → Session World → Deletion → Pass World
  unfolding recreated
  deletion_answered h diff s deleted = recreated h diff s
  deletion_answered h diff s (undeleted e) =
      if e.is_not_found
      then recreated h diff s
      else done s (
          violation
            (get_msg_prefix job <> (" failed to delete when recreating with the error " <> e.text))
            "" h.update_needed)

  unfoldable pub recreate : Handled → String → Session World → Pass World
  unfolding deletion_answered
  recreate h diff s =
      let (w, deletion) = env.client.delete job.name s.world in
      deletion_answered h diff (at_world s w) deletion

  -- The object would be updated: a policy that informs stops here.
  unfoldable pub would_update : Handled → Bool → String → Session World → Pass World
  unfolding recreate
  would_update h needs_recreate diff s =
      if is_inform job.remediation
      then done (record_evaluated h.existing_obj false "" s) (violation "" diff false)
      else if needs_recreate || str_eq job.recreate_option "Always"
      then recreate h diff s
      else (let (w, answer) = env.client.update h.existing_obj s.world in
          applied "update" h diff (at_world s w) answer)

  abbrev pub dry_run_message : Handled → ApiError → String
  dry_run_message h e =
      message_or (get_update_error_msg e (env.unstructured.get_kind h.existing_obj) job.name) (
        "Error issuing a dry run update request for the object `"
        <> (job.name <> ("`, the error is `" <> (e.text <> "`"))))

  abbrev pub immutable_message : String
  immutable_message =
      if not (is_inform job.remediation)
      then get_msg_prefix job
        <> " cannot be updated, likely due to immutable fields not matching, you may set spec[\"object-templates\"][].recreateOption to recreate the object"
      else ""

  abbrev pub may_recreate : Bool
  may_recreate = str_eq job.recreate_option "Always" || str_eq job.recreate_option "IfRequired"

  -- The dry run failed, not or no more in a conflict.
  unfoldable pub dry_run_failed : Fields → Handled → ApiError → Session World → Pass World
  unfolding would_update
  dry_run_failed copy h e s =
      if not e.is_invalid
      then done
          (if e.is_bad_request
            then record_evaluated h.existing_obj false (dry_run_message h e) s
            else s)
          (violation (dry_run_message h e) "" h.update_needed)
      else if is_inform job.remediation || not may_recreate
      then done (record_evaluated (stripped h.existing_obj) false immutable_message s)
          (violation immutable_message (diff_between copy (stripped h.existing_obj)) false)
      else would_update h true "" s

  unfoldable pub dry_run_answered : Fields → Handled → Session World → Answer → Pass World
  unfolding dry_run_failed
  dry_run_answered copy h s (rejected e) = after_error h (dry_run_failed copy h e) e s
  dry_run_answered copy h s (answered updated) =
      if deep_equal (obj (stripped updated)) (obj copy)
      then done (record_evaluated h.existing_obj true "" s) no_violation
      else would_update h false (diff_between copy (stripped updated)) s

  unfoldable pub dry_run : Fields → Handled → Session World → Pass World
  unfolding dry_run_answered
  dry_run copy h s =
      let (w, answer) = env.client.dry_run_update h.existing_obj s.world in
      dry_run_answered copy h (at_world s w) answer

  -- An update is needed: the validation for an old server, then the dry run.
  unfoldable pub validated : Fields → Handled → Session World → Option String → Pass World
  unfolding dry_run
  validated copy h s (some text) = done s (
      violation
        ("Error validating the object " <> (job.name <> (", the error is `" <> (text <> "`")))) ""
        h.update_needed)
  validated copy h s none = dry_run copy h s

  unfoldable pub try_update : Fields → Handled → Session World → Pass World
  unfolding validated
  try_update copy h s =
      validated copy h s (if env.old_server then env.validate_object h.existing_obj else none)

  -- No update is needed; the status may not match.
  unfoldable pub keep_object : Fields → Handled → Session World → Pass World
  keep_object copy h s =
      done (record_evaluated h.existing_obj (not h.throw_spec_violation) "" s) (record {
        throw_spec_violation = h.throw_spec_violation;
        message = "";
        diff =
            if h.throw_spec_violation && not (str_eq record_diff "None")
            then diff_between copy (stripped h.existing_obj)
            else "";
        update_needed = h.update_needed;
        updated_obj = none;
      })

  abbrev pub compared_keys : Fields → KeysResult
  compared_keys existing =
      handle_keys env.unstructured env.decode_base64 env.parse_quantity env.quantity_equal
        job.desired_obj existing (stripped existing) job.compliance_type
        job.metadata_compliance_type

  unfoldable pub keys_compared : Fields → Session World → KeysResult → Pass World
  unfolding try_update keep_object
  keys_compared copy s crashed = panicked
  keys_compared copy s (stopped message h) = done s (violation message "" true)
  keys_compared copy s (finished h) =
      if h.update_needed then try_update copy h s else keep_object copy h s

  -- The comparison writes into the lists of the desired object.
  abbrev pub job_after : Fields → Job
  job_after existing = record job {
    desired_obj =
        desired_after env.parse_quantity env.quantity_equal env.spare job.desired_obj
          job.desired_obj (stripped existing) job.compliance_type job.metadata_compliance_type
          false;
  }

  abbrev pub continued : (Fields → Session World → Ending World) → Pass World → Ending World
  continued next (done s outcome) = returns s outcome
  continued next (again rv s) = next rv s
  continued next panicked = panics

module _ {World Quantity : Type 0} (env : Environment World Quantity) where
  -- One pass, for an object that exists. What follows the comparison has the desired object as the
  -- comparison left it.
  unfoldable pub check_once : Job → Fields → Session World → Pass World
  unfolding keys_compared desired_after
  check_once job existing s =
      keys_compared env (job_after env job existing) (stripped env job existing) s
        (compared_keys env job existing)

  -- The recursion of `checkAndUpdateResource`; each conflict takes one unit of fuel.
  unfoldable pub check_again : Job → ℕ → Fields → Session World → Ending World
  unfolding check_once
  check_again job zero existing s = out_of_fuel
  check_again job (suc fuel) existing s =
      continued env job (check_again (job_after env job existing) fuel) (check_once job existing s)

  -- `checkAndUpdateResource`, for the existing object if it could be read.
  unfoldable pub check_and_update_resource : Job → ℕ → Option Fields → Session World → Ending World
  unfolding check_again
  check_and_update_resource job fuel none s = returns s no_violation
  check_and_update_resource job fuel (some existing) s = check_again job fuel existing s
