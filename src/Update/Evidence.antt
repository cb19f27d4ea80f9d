-- ===== src/Update/Evidence.antt =====
-- Why `checkAndUpdateResource` finds no violation.
use config_policy_controller.Prelude.{◌≡◌, ◌⊎◌, true, false, Option, some}
use config_policy_controller.Json.{Fields, obj}
use config_policy_controller.Json.Equal.{deep_equal}
use config_policy_controller.Keys.{Handled, finished}
use config_policy_controller.Update.{
  answered, Environment, Job, Outcome, Session, Ending, returns, panics, out_of_fuel, Pass, done,
  again, panicked,
}
use config_policy_controller.Update.Once.{stripped, compared_keys, job_after}

module _ {World Quantity : Type 0} (env : Environment World Quantity) (job : Job) where
  -- The cluster accepted the merged object as an update, or the desired object as a new one.
  abbrev pub IsSent : Handled → Fields → Type 0
  IsSent h updated =
      ((w : World) × ((env.client.update h.existing_obj w).1 ≡ answered updated))
      ⊎ ((w : World) × ((env.client.create job.desired_obj w).1 ≡ answered updated))

  -- The reasons: nothing to change and the status matches, a dry run that changes nothing, or a
  -- request that the cluster accepted for an object whose status matches.
  pub data IsClear (existing : Fields) (h : Handled) (updated : Option Fields) : Type 0 where
    clear_matching :
        h.update_needed ≡ false → h.throw_spec_violation ≡ false → IsClear existing h updated
    clear_unchanged :
        (w : World) (answer : Fields)
        → (env.client.dry_run_update h.existing_obj w).1 ≡ answered answer
        → deep_equal (obj (stripped env job answer)) (obj (stripped env job existing)) ≡ true
        → IsClear existing h updated
    clear_sent :
        (object : Fields)
        → IsSent h object
        → updated ≡ some object
        → h.throw_spec_violation ≡ false
        → IsClear existing h updated

  module _ (existing : Fields) (h : Handled) where
    data Sound : Pass World → Type 0 where
      sound_done :
          {s : Session World} {outcome : Outcome}
          → (outcome.throw_spec_violation ≡ false → IsClear existing h outcome.updated_obj)
          → Sound (done s outcome)
      sound_again : {rv : Fields} {s : Session World} → Sound (again rv s)
      sound_panic : Sound panicked

module _ {World Quantity : Type 0} (env : Environment World Quantity) where
  -- The desired objects that the passes start with: the given one, and what a comparison leaves of
  -- it for the next pass.
  pub data Follows : Job → Job → Type 0 where
    follows_first : {job : Job} → Follows job job
    follows_again :
        {job later : Job} (existing : Fields)
        → Follows (job_after env job existing) later
        → Follows job later

  -- The reason, for one of the objects that were compared.
  abbrev pub HasReason : Job → Outcome → Type 0
  HasReason job outcome =
      (later : Job) × Follows job later
      × (existing : Fields) × (h : Handled) × (compared_keys env later existing ≡ finished h)
      × IsClear env (job_after env later existing) existing h outcome.updated_obj

  abbrev Justified : Job → Pass World → Type 0
  Justified job (done s outcome) = outcome.throw_spec_violation ≡ false → HasReason job outcome
  Justified job (again rv s) = Unit
  Justified job panicked = Unit

  abbrev EndsJustified : Job → Ending World → Type 0
  EndsJustified job (returns s outcome) =
      outcome.throw_spec_violation ≡ false → HasReason job outcome
  EndsJustified job panics = Unit
  EndsJustified job out_of_fuel = Unit
