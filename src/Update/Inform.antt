-- ===== src/Update/Inform.antt =====
-- A policy that informs only reads the cluster in `checkAndUpdateResource`.
use config_policy_controller.Prelude.{
  ℕ, zero, suc, String, ◌≡◌, refl, ◌∙◌, subst, Bool, true, false, not, Option, none, some, if_both,
}
use config_policy_controller.Policy.{is_inform}
use config_policy_controller.Json.{Fields}
use config_policy_controller.Keys.{Handled, KeysResult, finished, stopped, crashed}
use config_policy_controller.Update.{
  ApiError, Answer, answered, rejected, Client, Environment, Job, Outcome, Session, Ending, returns,
  panics, out_of_fuel, Pass, done, again, panicked,
}
use config_policy_controller.Update.Once.{
  got, refetched, after_error, keep_object, record_evaluated, would_update, dry_run_failed,
  dry_run_answered, dry_run, validated, try_update, keys_compared, job_after, check_once, continued,
  check_again, check_and_update_resource,
}

-- What is stored in the cluster, which a dry run and a read leave as it is.
pub record IsStored {World Stored : Type 0} (client : Client World) (stored : World → Stored)
    : Type 0 where
  pub dry_runs : (o : Fields) (w : World) → stored (client.dry_run_update o w).0 ≡ stored w
  pub gets : (n : String) (w : World) → stored (client.get n w).0 ≡ stored w

-- The pass left the stored objects as they were.
data Keeps {World Stored : Type 0} (stored : World → Stored) (before : Stored)
    : Pass World → Type 0 where
  keeps_done :
      {s : Session World} {outcome : Outcome}
      → stored s.world ≡ before
      → Keeps stored before (done s outcome)
  keeps_again :
      {rv : Fields} {s : Session World} → stored s.world ≡ before → Keeps stored before (again rv s)
  keeps_panic : Keeps stored before panicked

module _ {World Quantity Stored : Type 0} (env : Environment World Quantity) (job : Job)
    (stored : World → Stored) (is_stored : IsStored env.client stored)
    (informs : is_inform job.remediation ≡ true) (before : Stored) where
  got-Keeps :
      (failing : Session World → Pass World) (s : Session World) (a : Answer)
      → stored s.world ≡ before
      → Keeps stored before (failing s)
      → Keeps stored before (got env job failing s a)
  got-Keeps failing s (answered rv) same rest = keeps_again same
  got-Keeps failing s (rejected e) same rest = rest

  after_error-Keeps :
      (h : Handled) (failing : Session World → Pass World) (e : ApiError) (s : Session World)
      → stored s.world ≡ before
      → ((s' : Session World) → stored s'.world ≡ before → Keeps stored before (failing s'))
      → Keeps stored before (after_error env job h failing e s)
  unfolding after_error refetched
  after_error-Keeps h failing e s same rest =
      let read = is_stored.gets (env.unstructured.get_name h.existing_obj) s.world ∙ same in
      if_both (Keeps stored before) e.is_conflict (got-Keeps failing _ _ read (rest _ read))
        (rest s same)

  would_update-Keeps :
      (h : Handled) (needs_recreate : Bool) (diff : String) (s : Session World)
      → stored s.world ≡ before
      → Keeps stored before (would_update env job h needs_recreate diff s)
  unfolding would_update record_evaluated
  would_update-Keeps h needs_recreate diff s same = rw informs (keeps_done same)

  dry_run_failed-Keeps :
      (copy : Fields) (h : Handled) (e : ApiError) (s : Session World)
      → stored s.world ≡ before
      → Keeps stored before (dry_run_failed env job copy h e s)
  unfolding dry_run_failed record_evaluated
  dry_run_failed-Keeps copy h e s same =
      if_both (Keeps stored before) (not e.is_invalid)
        (keeps_done
          (if_both (λ (x : Session World). stored x.world ≡ before) e.is_bad_request same same))
        (if_both (Keeps stored before) _ (keeps_done same) (would_update-Keeps h true "" s same))

  dry_run_answered-Keeps :
      (copy : Fields) (h : Handled) (s : Session World) (a : Answer)
      → stored s.world ≡ before
      → Keeps stored before (dry_run_answered env job copy h s a)
  unfolding dry_run_answered record_evaluated
  dry_run_answered-Keeps copy h s (answered updated) same =
      if_both (Keeps stored before) _ (keeps_done same) (would_update-Keeps h false _ s same)
  dry_run_answered-Keeps copy h s (rejected e) same =
      after_error-Keeps h (dry_run_failed env job copy h e) e s same
        (λ s' same'. dry_run_failed-Keeps copy h e s' same')

  validated-Keeps :
      (copy : Fields) (h : Handled) (s : Session World) (o : Option String)
      → stored s.world ≡ before
      → Keeps stored before (validated env job copy h s o)
  unfolding validated dry_run
  validated-Keeps copy h s (some text) same = keeps_done same
  validated-Keeps copy h s none same =
      dry_run_answered-Keeps copy h _ _ (is_stored.dry_runs h.existing_obj s.world ∙ same)

  keys_compared-Keeps :
      (copy : Fields) (s : Session World) (r : KeysResult)
      → stored s.world ≡ before
      → Keeps stored before (keys_compared env job copy s r)
  unfolding keys_compared try_update keep_object record_evaluated
  keys_compared-Keeps copy s crashed same = keeps_panic
  keys_compared-Keeps copy s (stopped message h) same = keeps_done same
  keys_compared-Keeps copy s (finished h) same =
      if_both (Keeps stored before) h.update_needed (validated-Keeps copy h s _ same)
        (keeps_done same)

  abbrev EndsKept : Ending World → Type 0
  EndsKept (returns s outcome) = stored s.world ≡ before
  EndsKept panics = Unit
  EndsKept out_of_fuel = Unit

  continued-EndsKept :
      (next : Fields → Session World → Ending World) (p : Pass World)
      → Keeps stored before p
      → ((rv : Fields) (s : Session World) → stored s.world ≡ before → EndsKept (next rv s))
      → EndsKept (continued env job next p)
  continued-EndsKept next (done s outcome) (keeps_done same) rest = same
  continued-EndsKept next (again rv s) (keeps_again same) rest = rest rv s same
  continued-EndsKept next panicked kept rest = tt

module _ {World Quantity Stored : Type 0} (env : Environment World Quantity)
    (stored : World → Stored) (is_stored : IsStored env.client stored) (before : Stored) where
  check_again-EndsKept :
      (job : Job) (informs : is_inform job.remediation ≡ true) (fuel : ℕ) (existing : Fields)
      (s : Session World)
      → stored s.world ≡ before
      → EndsKept env job stored is_stored informs before (check_again env job fuel existing s)
  unfolding check_again check_once
  check_again-EndsKept job informs zero existing s same = tt
  check_again-EndsKept job informs (suc fuel) existing s same =
      continued-EndsKept env job stored is_stored informs before _ _
        (keys_compared-Keeps env (job_after env job existing) stored is_stored informs before _ s _
          same)
        (λ rv s' same'. check_again-EndsKept (job_after env job existing) informs fuel rv s' same')

module _ {World Quantity Stored : Type 0} (env : Environment World Quantity) (job : Job)
    (stored : World → Stored) where
  -- If the policy informs, and dry runs and reads leave what is stored in the cluster as it is, then
  -- it is as before when `checkAndUpdateResource` returns, after any number of conflicts.
  pub check_and_update_resource-stored :
      IsStored env.client stored
      → is_inform job.remediation ≡ true
      → (fuel : ℕ) (existing : Option Fields) (s s' : Session World) (outcome : Outcome)
      → check_and_update_resource env job fuel existing s ≡ returns s' outcome
      → stored s'.world ≡ stored s.world
  unfolding check_and_update_resource
  check_and_update_resource-stored is_stored informs fuel none s s' outcome e = cc
  check_and_update_resource-stored is_stored informs fuel (some existing) s s' outcome e =
      subst (EndsKept env job stored is_stored informs (stored s.world)) e (
        check_again-EndsKept env stored is_stored (stored s.world) job informs fuel existing s refl)
