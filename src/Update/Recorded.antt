-- ===== src/Update/Recorded.antt =====
-- What `checkAndUpdateResource` writes into the cache of evaluated objects.
use config_policy_controller.Prelude.{
  ℕ, zero, suc, String, ◌≡◌, ◌⊎◌, refl, subst, Bool, true, false, not, ◌||◌, Option, none, some,
  Bool-cases, if_both, inl, inr,
}
use config_policy_controller.Prelude.Text.{str_eq}
use config_policy_controller.Policy.{is_inform}
use config_policy_controller.Json.{Fields}
use config_policy_controller.Keys.{Handled, KeysResult, finished, stopped, crashed}
use config_policy_controller.Keys.Mismatch.{Agrees, handle_keys-Agrees}
use config_policy_controller.Evaluated.{ProcessedPolicyCache, set_evaluated_object}
use config_policy_controller.Update.{
  ApiError, Answer, answered, rejected, Deletion, deleted, undeleted, Environment, Job, Outcome,
  Session, at_world, Ending, returns, panics, out_of_fuel, Pass, done, again, panicked, violation,
}
use config_policy_controller.Update.Once.{
  got, refetched, after_error, apply_failed, applied, created_again, recreated, deletion_answered,
  recreate, keep_object, record_evaluated, would_update, dry_run_failed, dry_run_answered, dry_run,
  validated, dry_run_message, immutable_message, may_recreate, diff_between, try_update,
  keys_compared, stripped, job_after, check_once, continued, check_again, check_and_update_resource,
}

module _ {World Quantity : Type 0} (env : Environment World Quantity) (job : Job)
    (before : ProcessedPolicyCache) where
  -- The cache after an outcome: as it was, or with the outcome recorded for an object.
  abbrev pub IsRecorded : ProcessedPolicyCache → Outcome → Type 0
  IsRecorded cache outcome =
      (cache ≡ before)
      ⊎ ((object : Fields) × (cache
            ≡ set_evaluated_object before job.policy_uid (env.accessors.get_uid object)
                (env.accessors.get_resource_version object) (not outcome.throw_spec_violation)
                outcome.message))

  data Records : Pass World → Type 0 where
    records_done :
        {s : Session World} {outcome : Outcome}
        → IsRecorded s.cache outcome
        → Records (done s outcome)
    records_again : {rv : Fields} {s : Session World} → s.cache ≡ before → Records (again rv s)
    records_panic : Records panicked

  unrecorded : (s : Session World) (outcome : Outcome) → s.cache ≡ before → Records (done s outcome)
  unrecorded s outcome same = records_done (inl same)

  -- The object is recorded with the compliance and the message of the outcome.
  recorded :
      (s : Session World) (object : Fields) (outcome : Outcome) (compliant : Bool)
      (message : String)
      → s.cache ≡ before
      → compliant ≡ not outcome.throw_spec_violation
      → message ≡ outcome.message
      → Records (done (record_evaluated env job object compliant message s) outcome)
  unfolding record_evaluated
  recorded s object outcome compliant message same c m =
      records_done (inr (object, rw (same, c, m) refl))

  after_error-Records :
      (h : Handled) (failing : Session World → Pass World) (e : ApiError) (s : Session World)
      → s.cache ≡ before
      → ((s' : Session World) → s'.cache ≡ before → Records (failing s'))
      → Records (after_error env job h failing e s)
  unfolding after_error refetched
  after_error-Records h failing e s same rest =
      if_both Records e.is_conflict (answer _ _ same) (rest s same)
    where
      answer :
          (s' : Session World) (a : Answer) → s'.cache ≡ before → Records (got env job failing s' a)
      answer s' (answered rv) same' = records_again same'
      answer s' (rejected e') same' = rest s' same'

  applied-Records :
      (action : String) (h : Handled) (diff : String) (s : Session World) (a : Answer)
      → Agrees h
      → s.cache ≡ before
      → Records (applied env job action h diff s a)
  unfolding applied apply_failed
  applied-Records action h diff s (answered updated) agrees same =
      elim (Bool-cases h.status_mismatch) [
        | inl mismatch ↦ rw mismatch (unrecorded s _ same)
        | inr matches ↦
            rw matches (recorded s updated _ true "" same (rw (agrees, matches) refl) refl)
      ]
  applied-Records action h diff s (rejected e) agrees same =
      after_error-Records h (apply_failed env job action h diff e) e s same
        (λ s' same'. unrecorded s' _ same')

  created_again-Records :
      (h : Handled) (diff : String) (s : Session World) (o : Option Answer)
      → Agrees h
      → s.cache ≡ before
      → Records (created_again env job h diff s o)
  unfolding created_again
  created_again-Records h diff s none agrees same = unrecorded s _ same
  created_again-Records h diff s (some a) agrees same =
      applied-Records "recreate" h diff s a agrees same

  deletion_answered-Records :
      (h : Handled) (diff : String) (s : Session World) (d : Deletion)
      → Agrees h
      → s.cache ≡ before
      → Records (deletion_answered env job h diff s d)
  unfolding deletion_answered recreated
  deletion_answered-Records h diff s deleted agrees same =
      created_again-Records h diff _ _ agrees same
  deletion_answered-Records h diff s (undeleted e) agrees same =
      if_both Records e.is_not_found (created_again-Records h diff _ _ agrees same)
        (unrecorded s _ same)

  would_update-Records :
      (h : Handled) (needs_recreate : Bool) (diff : String) (s : Session World)
      → Agrees h
      → s.cache ≡ before
      → Records (would_update env job h needs_recreate diff s)
  unfolding would_update recreate
  would_update-Records h needs_recreate diff s agrees same =
      let updating = env.client.update h.existing_obj s.world in
      let deleting = env.client.delete job.name s.world in
      if_both Records (is_inform job.remediation)
        (recorded s h.existing_obj (violation "" diff false) false "" same refl refl)
        (if_both Records (needs_recreate || str_eq job.recreate_option "Always")
          (deletion_answered-Records h diff (at_world s deleting.0) deleting.1 agrees same)
          (applied-Records "update" h diff (at_world s updating.0) updating.1 agrees same))

  dry_run_failed-Records :
      (copy : Fields) (h : Handled) (e : ApiError) (s : Session World)
      → Agrees h
      → s.cache ≡ before
      → Records (dry_run_failed env job copy h e s)
  unfolding dry_run_failed
  dry_run_failed-Records copy h e s agrees same =
      let message = dry_run_message env job h e in
      let refused = violation message "" h.update_needed in
      let bare = stripped env job h.existing_obj in
      let immutable =
        violation (immutable_message env job) (diff_between env job copy bare) false in
      if_both Records (not e.is_invalid)
        (if_both (λ x. Records (done x refused)) e.is_bad_request
          (recorded s h.existing_obj refused false message same refl refl)
          (unrecorded s refused same))
        (if_both Records (is_inform job.remediation || not (may_recreate env job))
          (recorded s bare immutable false (immutable_message env job) same refl refl)
          (would_update-Records h true "" s agrees same))

  dry_run_answered-Records :
      (copy : Fields) (h : Handled) (s : Session World) (a : Answer)
      → Agrees h
      → s.cache ≡ before
      → Records (dry_run_answered env job copy h s a)
  unfolding dry_run_answered
  dry_run_answered-Records copy h s (answered updated) agrees same =
      if_both Records _ (recorded s h.existing_obj _ true "" same refl refl)
        (would_update-Records h false _ s agrees same)
  dry_run_answered-Records copy h s (rejected e) agrees same =
      after_error-Records h (dry_run_failed env job copy h e) e s same
        (λ s' same'. dry_run_failed-Records copy h e s' agrees same')

  validated-Records :
      (copy : Fields) (h : Handled) (s : Session World) (o : Option String)
      → Agrees h
      → s.cache ≡ before
      → Records (validated env job copy h s o)
  unfolding validated dry_run
  validated-Records copy h s (some text) agrees same = unrecorded s _ same
  validated-Records copy h s none agrees same = dry_run_answered-Records copy h _ _ agrees same

  keys_compared-Records :
      (copy : Fields) (s : Session World) (r : KeysResult)
      → ((h : Handled) → r ≡ finished h → Agrees h)
      → s.cache ≡ before
      → Records (keys_compared env job copy s r)
  unfolding keys_compared try_update keep_object
  keys_compared-Records copy s crashed agrees same = records_panic
  keys_compared-Records copy s (stopped message h) agrees same = unrecorded s _ same
  keys_compared-Records copy s (finished h) agrees same =
      if_both Records h.update_needed (validated-Records copy h s _ (agrees h refl) same)
        (recorded s h.existing_obj _ _ "" same refl refl)

  abbrev EndsRecorded : Ending World → Type 0
  EndsRecorded (returns s outcome) = IsRecorded s.cache outcome
  EndsRecorded panics = Unit
  EndsRecorded out_of_fuel = Unit

  continued-EndsRecorded :
      (next : Fields → Session World → Ending World) (p : Pass World)
      → Records p
      → ((rv : Fields) (s : Session World) → s.cache ≡ before → EndsRecorded (next rv s))
      → EndsRecorded (continued env job next p)
  continued-EndsRecorded next (done s outcome) (records_done r) rest = r
  continued-EndsRecorded next (again rv s) (records_again same) rest = rest rv s same
  continued-EndsRecorded next panicked r rest = tt

module _ {World Quantity : Type 0} (env : Environment World Quantity)
    (before : ProcessedPolicyCache) where
  Records-job_after :
      (job : Job) (existing : Fields) (p : Pass World)
      → Records env (job_after env job existing) before p
      → Records env job before p
  Records-job_after job existing (done s outcome) (records_done r) = records_done r
  Records-job_after job existing (again rv s) (records_again same) = records_again same
  Records-job_after job existing panicked r = records_panic

  check_again-EndsRecorded :
      (job : Job) (fuel : ℕ) (existing : Fields) (s : Session World)
      → s.cache ≡ before
      → EndsRecorded env job before (check_again env job fuel existing s)
  unfolding check_again check_once
  check_again-EndsRecorded job zero existing s same = tt
  check_again-EndsRecorded job (suc fuel) existing s same =
      continued-EndsRecorded env job before _ _
        (Records-job_after job existing _ (
          keys_compared-Records env (job_after env job existing) before _ s _
            (handle_keys-Agrees env.unstructured env.decode_base64 env.parse_quantity
              env.quantity_equal job.desired_obj (stripped env job existing) job.compliance_type
              job.metadata_compliance_type existing)
            same))
        (λ rv s' same'. check_again-EndsRecorded (job_after env job existing) fuel rv s' same')

module _ {World Quantity : Type 0} (env : Environment World Quantity) (job : Job) where
  -- When `checkAndUpdateResource` returns, the cache of evaluated objects is as it was, or it has
  -- the compliance and the message that the check returns recorded for the policy and some object.
  pub check_and_update_resource-IsRecorded :
      (fuel : ℕ) (existing : Option Fields) (s s' : Session World) (outcome : Outcome)
      → check_and_update_resource env job fuel existing s ≡ returns s' outcome
      → IsRecorded env job s.cache s'.cache outcome
  unfolding check_and_update_resource
  check_and_update_resource-IsRecorded fuel none s s' outcome e =
      subst (EndsRecorded env job s.cache) e (inl refl)
  check_and_update_resource-IsRecorded fuel (some existing) s s' outcome e =
      subst (EndsRecorded env job s.cache) e
        (check_again-EndsRecorded env s.cache job fuel existing s refl)
