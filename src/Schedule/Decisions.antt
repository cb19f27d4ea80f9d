-- ===== src/Schedule/Decisions.antt =====
-- What `should_evaluate_policy` decides: the exact conditions of waiting.
use config_policy_controller.Prelude.{
  ℕ, ◌≡◌, ◌≢◌, ◌⊎◌, refl, ◌+◌, ◌*◌, ◌<◌, ◌≤◌, Bool, true, false, ◌&&◌, Option, none, some, arith,
  ◌==◌, eq_iff, Option-cases,
}
use config_policy_controller.Prelude.Text.{str_eq}
use config_policy_controller.Policy.{
  ComplianceState, ConfigurationPolicy, compliant, noncompliant, unknown_compliancy, terminating,
  pending, state_eq,
}
use config_policy_controller.Policy.Intervals.{
  Interval, duration, is_watch, is_never, invalid, get_compliant_interval,
  get_noncompliant_interval,
}
use config_policy_controller.Schedule.{
  second, Environment, recreate_timed_out, by_interval, by_state, uses_selector, is_stale,
  when_evaluated, should_evaluate_policy,
}

-- What a policy in a state waits for; `none` is nothing.
abbrev pub awaited :
    {L : Type 0} → Environment → ConfigurationPolicy L → ComplianceState → Option Interval
awaited env policy compliant =
    some (get_compliant_interval env.parse_duration policy.spec.evaluation_interval)
awaited env policy noncompliant =
    some (get_noncompliant_interval env.parse_duration policy.spec.evaluation_interval)
awaited env policy unknown_compliancy = none
awaited env policy terminating = none
awaited env policy pending = some (duration 0)

-- The answer after a pause of `d`: due once it is over, and else due in what is left of it.
abbrev pub Pauses : Environment → ℕ → ℕ → Bool × ℕ → Type 0
Pauses env last d r =
    (last + d ≤ env.now) × (r.0 ≡ true) × (r.1 ≡ 0)
    ⊎ (env.now < last + d) × (r.0 ≡ false) × (env.now + r.1 ≡ last + d)

-- The answer for each kind of interval. An invalid one counts as no pause at all.
abbrev pub Obeys : Environment → ℕ → Option Interval → Bool × ℕ → Type 0
Obeys env last none r = (r.0 ≡ true) × (r.1 ≡ 0)
Obeys env last (some (duration d)) r = Pauses env last d r
Obeys env last (some is_watch) r = Pauses env last (second * env.eval_backoff_seconds) r
Obeys env last (some is_never) r = (r.0 ≡ false) × (r.1 ≡ 0)
Obeys env last (some invalid) r = (r.0 ≡ true) × (r.1 ≡ 0)

by_interval-Obeys :
    (env : Environment) (last : ℕ) (i : Interval) → Obeys env last (some i) (by_interval env last i)
unfolding by_interval
by_interval-Obeys env last (duration d) = ground arith
by_interval-Obeys env last is_watch = ground arith
by_interval-Obeys env last is_never = (refl, refl)
by_interval-Obeys env last invalid = (refl, refl)

module _ {L : Type 0} (env : Environment) (policy : ConfigurationPolicy L) where
  -- Nothing but the evaluation interval is left to decide, and the last evaluation was at `last`.
  pub record IsSettled (last : ℕ) : Type 0 where
    pub synced : is_stale env policy ≡ false
    pub alive : policy.deletion_timestamp ≡ false
    pub evaluated : str_eq policy.status.last_evaluated "" ≡ false
    pub current : policy.status.last_evaluated_generation ≡ policy.generation
    pub recreated :
        (state_eq policy.status.compliance_state noncompliant
          && recreate_timed_out policy.status.compliancy_details)
        ≡ false
    pub parsed : env.parse_time policy.status.last_evaluated ≡ some last
    pub selected : (uses_selector policy && env.has_update policy.namespace policy.name) ≡ false

  -- A reason to evaluate a policy whatever its interval is.
  pub data IsUrgent : Type 0 where
    deleted : policy.deletion_timestamp ≡ true → IsUrgent
    not_evaluated : policy.status.last_evaluated ≡ "" → IsUrgent
    changed : policy.status.last_evaluated_generation ≢ policy.generation → IsUrgent
    timed_out :
        policy.status.compliance_state ≡ noncompliant
        → recreate_timed_out policy.status.compliancy_details ≡ true
        → IsUrgent
    unreadable : env.parse_time policy.status.last_evaluated ≡ none → IsUrgent
    reselected :
        uses_selector policy ≡ true → env.has_update policy.namespace policy.name ≡ true → IsUrgent

module _ {L : Type 0} (env : Environment) (policy : ConfigurationPolicy L) where
  by_state-Obeys :
      (last : ℕ) (s : ComplianceState)
      → Obeys env last (awaited env policy s) (by_state env policy.spec.evaluation_interval last s)
  unfolding by_state
  by_state-Obeys last compliant = by_interval-Obeys env last _
  by_state-Obeys last noncompliant = by_interval-Obeys env last _
  by_state-Obeys last unknown_compliancy = (refl, refl)
  by_state-Obeys last terminating = (refl, refl)
  by_state-Obeys last pending = by_interval-Obeys env last (duration 0)

  -- A settled policy obeys the evaluation interval of its compliance state: with a duration (or the
  -- backoff, when it is watched) it is due exactly when that has passed since the last evaluation
  -- and is otherwise requeued for the time that is left; with `never` it is neither due nor
  -- requeued; with an invalid interval or an unknown or terminating state it is due at once.
  pub should_evaluate_policy-IsSettled :
      (last : ℕ)
      → IsSettled env policy last
      → Obeys env last
          (awaited env policy policy.status.compliance_state)
          (should_evaluate_policy env policy false)
  unfolding should_evaluate_policy when_evaluated
  should_evaluate_policy-IsSettled last h =
      simp (h.synced, h.alive, h.evaluated, same, h.recreated, h.parsed, h.selected)
        (by_state-Obeys last policy.status.compliance_state)
    where
      same : (policy.status.last_evaluated_generation == policy.generation) ≡ true
      same = rw h.current (ground arith)

  -- With nothing to clean up and the cache in step, any one reason to hurry (deletion, no earlier
  -- evaluation, a new generation, a recreate that timed out, an unreadable time, a changed
  -- namespace selection) makes the policy due at once, whatever its evaluation interval is.
  pub should_evaluate_policy-IsUrgent :
      is_stale env policy ≡ false
      → IsUrgent env policy
      → should_evaluate_policy env policy false ≡ (true, 0)
  unfolding should_evaluate_policy when_evaluated
  should_evaluate_policy-IsUrgent synced (deleted h) = ground arith
  should_evaluate_policy-IsUrgent synced (not_evaluated h) =
      ground (arith, eq_iff policy.status.last_evaluated "")
  should_evaluate_policy-IsUrgent synced (changed h) = ground arith
  should_evaluate_policy-IsUrgent synced (timed_out h k) = ground arith
  should_evaluate_policy-IsUrgent synced (unreadable h) = ground arith
  should_evaluate_policy-IsUrgent synced (reselected h k) =
      ground (arith, Option-cases (env.parse_time policy.status.last_evaluated))
