-- ===== src/Update/Total.antt =====
-- The recursion of `checkAndUpdateResource` after a conflict ends.
use config_policy_controller.Prelude.{
  ℕ, zero, suc, ◌+◌, ◌≤◌, ◌<◌, String, Bool, true, false, not, Option, none, some, Bool-cases,
  if_both, inl, inr, arith, if◌then◌else◌,
}
use config_policy_controller.Policy.{is_inform}
use config_policy_controller.Json.{Fields}
use config_policy_controller.Keys.{Handled, KeysResult, finished, stopped, crashed}
use config_policy_controller.Update.{
  ApiError, Answer, answered, rejected, Deletion, deleted, undeleted, Client, Environment, Job,
  Outcome, Session, Ending, returns, panics, out_of_fuel, Pass, done, again, panicked, still_there,
  create_until, max_attempts,
}
use config_policy_controller.Update.Once.{
  got, refetched, after_error, apply_failed, applied, keep_object, created_again, recreated,
  deletion_answered, recreate, would_update, dry_run_failed, dry_run_answered, dry_run, validated,
  try_update, keys_compared, job_after, check_once, continued, check_again,
  check_and_update_resource,
}

-- One for a conflict.
abbrev pub conflicts : Answer → ℕ
conflicts (answered updated) = 0
conflicts (rejected e) = if e.is_conflict then 1 else 0

-- A bound on the conflicts to come: each conflict uses one up, and no request adds one.
pub record IsBounded {World : Type 0} (client : Client World) (pending : World → ℕ) : Type 0 where
  pub dry_runs :
      (o : Fields) (w : World)
      → pending (client.dry_run_update o w).0 + conflicts (client.dry_run_update o w).1 ≤ pending w
  pub updates :
      (o : Fields) (w : World)
      → pending (client.update o w).0 + conflicts (client.update o w).1 ≤ pending w
  pub creates :
      (o : Fields) (w : World)
      → pending (client.create o w).0 + conflicts (client.create o w).1 ≤ pending w
  pub deletes : (n : String) (w : World) → pending (client.delete n w).0 ≤ pending w
  pub gets : (n : String) (w : World) → pending (client.get n w).0 ≤ pending w

-- Another pass would start with fewer conflicts to come.
pub data Shrinks {World : Type 0} (pending : World → ℕ) (n : ℕ) : Pass World → Type 0 where
  is_done : {s : Session World} {outcome : Outcome} → Shrinks pending n (done s outcome)
  is_less : {rv : Fields} {s : Session World} → pending s.world < n → Shrinks pending n (again rv s)
  is_panic : Shrinks pending n panicked

module _ {World Quantity : Type 0} (env : Environment World Quantity) (job : Job)
    (pending : World → ℕ) (bounded : IsBounded env.client pending) where
  got-Shrinks :
      (failing : Session World → Pass World) (s : Session World) (a : Answer) (n : ℕ)
      → pending s.world < n
      → Shrinks pending n (failing s)
      → Shrinks pending n (got env job failing s a)
  got-Shrinks failing s (answered rv) n fewer rest = is_less fewer
  got-Shrinks failing s (rejected e) n fewer rest = rest

  after_error-Shrinks :
      (h : Handled) (failing : Session World → Pass World) (e : ApiError) (s : Session World)
      (n : ℕ)
      → pending s.world + conflicts (rejected e) ≤ n
      → ((s' : Session World) → pending s'.world ≤ n → Shrinks pending n (failing s'))
      → Shrinks pending n (after_error env job h failing e s)
  unfolding after_error refetched
  after_error-Shrinks h failing e s n fewer rest = elim (Bool-cases e.is_conflict) [
    | inl c ↦
        let read = bounded.gets (env.unstructured.get_name h.existing_obj) s.world in
        let less : pending s.world + 1 ≤ n = rw c at fewer in
        rw c (
          got-Shrinks failing _ _ n (omega (arith, read, less))
            (rest _ (omega (arith, read, less))))
    | inr c ↦ rw c (rest s (omega (arith, rw c at fewer)))
  ]

  abbrev last_conflicts : Option Answer → ℕ
  last_conflicts none = 0
  last_conflicts (some a) = conflicts a

  create_until-pending :
      (o : Fields) (attempts : ℕ) (w : World)
      → pending (create_until (env.client.create o) attempts w).0
          + last_conflicts (create_until (env.client.create o) attempts w).1
        ≤ pending w
  unfolding create_until
  create_until-pending o zero w = omega arith
  create_until-pending o (suc k) w =
      let first = bounded.creates o w in
      if_both (λ (x : World × Option Answer). pending x.0 + last_conflicts x.1 ≤ pending w)
        (still_there (env.client.create o w).1)
        (omega (arith, first, create_until-pending o k (env.client.create o w).0)) first

  applied-Shrinks :
      (action : String) (h : Handled) (diff : String) (s : Session World) (a : Answer) (n : ℕ)
      → pending s.world + conflicts a ≤ n
      → Shrinks pending n (applied env job action h diff s a)
  unfolding applied apply_failed
  applied-Shrinks action h diff s (answered updated) n fewer = is_done
  applied-Shrinks action h diff s (rejected e) n fewer =
      after_error-Shrinks h (apply_failed env job action h diff e) e s n fewer (λ s' le. is_done)

  created_again-Shrinks :
      (h : Handled) (diff : String) (s : Session World) (o : Option Answer) (n : ℕ)
      → pending s.world + last_conflicts o ≤ n
      → Shrinks pending n (created_again env job h diff s o)
  unfolding created_again
  created_again-Shrinks h diff s none n fewer = is_done
  created_again-Shrinks h diff s (some a) n fewer = applied-Shrinks "recreate" h diff s a n fewer

  recreated-Shrinks :
      (h : Handled) (diff : String) (s : Session World) (n : ℕ)
      → pending s.world ≤ n
      → Shrinks pending n (recreated env job h diff s)
  unfolding recreated
  recreated-Shrinks h diff s n le =
      created_again-Shrinks h diff _ _ n
        (omega (arith, le, create_until-pending job.desired_obj max_attempts s.world))

  deletion_answered-Shrinks :
      (h : Handled) (diff : String) (s : Session World) (d : Deletion) (n : ℕ)
      → pending s.world ≤ n
      → Shrinks pending n (deletion_answered env job h diff s d)
  unfolding deletion_answered
  deletion_answered-Shrinks h diff s deleted n le = recreated-Shrinks h diff s n le
  deletion_answered-Shrinks h diff s (undeleted e) n le =
      if_both (Shrinks pending n) e.is_not_found (recreated-Shrinks h diff s n le) is_done

  would_update-Shrinks :
      (h : Handled) (needs_recreate : Bool) (diff : String) (s : Session World) (n : ℕ)
      → pending s.world ≤ n
      → Shrinks pending n (would_update env job h needs_recreate diff s)
  unfolding would_update recreate
  would_update-Shrinks h needs_recreate diff s n le =
      let gone = env.client.delete job.name s.world in
      let less = bounded.deletes job.name s.world in
      let sent = bounded.updates h.existing_obj s.world in
      if_both (Shrinks pending n) (is_inform job.remediation) is_done (
        if_both (Shrinks pending n) _
          (deletion_answered-Shrinks h diff _ gone.1 n (omega (arith, le, less)))
          (applied-Shrinks "update" h diff _ _ n (omega (arith, le, sent))))

  dry_run_failed-Shrinks :
      (copy : Fields) (h : Handled) (e : ApiError) (s : Session World) (n : ℕ)
      → pending s.world ≤ n
      → Shrinks pending n (dry_run_failed env job copy h e s)
  unfolding dry_run_failed
  dry_run_failed-Shrinks copy h e s n le =
      if_both (Shrinks pending n) (not e.is_invalid) is_done
        (if_both (Shrinks pending n) _ is_done (would_update-Shrinks h true "" s n le))

  dry_run_answered-Shrinks :
      (copy : Fields) (h : Handled) (s : Session World) (a : Answer) (n : ℕ)
      → pending s.world + conflicts a ≤ n
      → Shrinks pending n (dry_run_answered env job copy h s a)
  unfolding dry_run_answered
  dry_run_answered-Shrinks copy h s (answered updated) n le =
      if_both (Shrinks pending n) _ is_done (would_update-Shrinks h false _ s n (omega (arith, le)))
  dry_run_answered-Shrinks copy h s (rejected e) n le =
      after_error-Shrinks h _ e s n le (λ s' less. dry_run_failed-Shrinks copy h e s' n less)

  validated-Shrinks :
      (copy : Fields) (h : Handled) (s : Session World) (o : Option String)
      → Shrinks pending (pending s.world) (validated env job copy h s o)
  unfolding validated dry_run
  validated-Shrinks copy h s (some text) = is_done
  validated-Shrinks copy h s none =
      dry_run_answered-Shrinks copy h _ _ (pending s.world)
        (bounded.dry_runs h.existing_obj s.world)

  keys_compared-Shrinks :
      (copy : Fields) (s : Session World) (r : KeysResult)
      → Shrinks pending (pending s.world) (keys_compared env job copy s r)
  unfolding keys_compared try_update keep_object
  keys_compared-Shrinks copy s crashed = is_panic
  keys_compared-Shrinks copy s (stopped message h) = is_done
  keys_compared-Shrinks copy s (finished h) =
      if_both (Shrinks pending (pending s.world)) h.update_needed (validated-Shrinks copy h s _)
        is_done

  -- A check that ends within its fuel.
  abbrev pub Ends : Ending World → Type 0
  Ends (returns s outcome) = Unit
  Ends panics = Unit
  Ends out_of_fuel = ⊥

  continued-Ends :
      (next : Fields → Session World → Ending World) (n : ℕ) (p : Pass World)
      → Shrinks pending n p
      → ((rv : Fields) (s : Session World) → pending s.world < n → Ends (next rv s))
      → Ends (continued env job next p)
  continued-Ends next n (done s outcome) less rest = tt
  continued-Ends next n (again rv s) (is_less less) rest = rest rv s less
  continued-Ends next n panicked less rest = tt

module _ {World Quantity : Type 0} (env : Environment World Quantity) (pending : World → ℕ)
    (bounded : IsBounded env.client pending) where
  check_again-Ends :
      (job : Job) (fuel : ℕ) (existing : Fields) (s : Session World)
      → pending s.world < fuel
      → Ends env job pending bounded (check_again env job fuel existing s)
  unfolding check_again check_once
  check_again-Ends job zero existing s less = absurd (omega (arith, less))
  check_again-Ends job (suc fuel) existing s less =
      continued-Ends env job pending bounded _ (pending s.world) _
        (keys_compared-Shrinks env (job_after env job existing) pending bounded _ s _)
        (λ rv s' fewer.
          check_again-Ends (job_after env job existing) fuel rv s' (omega (arith, less, fewer)))

  -- If the cluster bounds the conflicts to come, each conflict using one up and no request adding
  -- one, the recursion of `checkAndUpdateResource` ends: one more unit of fuel than that bound is
  -- enough.
  pub check_and_update_resource-Ends :
      (job : Job) (fuel : ℕ) (existing : Option Fields) (s : Session World)
      → pending s.world < fuel
      → Ends env job pending bounded (check_and_update_resource env job fuel existing s)
  unfolding check_and_update_resource
  check_and_update_resource-Ends job fuel none s less = tt
  check_and_update_resource-Ends job fuel (some existing) s less =
      check_again-Ends job fuel existing s less
