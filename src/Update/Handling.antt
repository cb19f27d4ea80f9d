-- ===== src/Update/Handling.antt =====
-- `handleSingleObj` with `checkAndUpdateResource` in it.
use config_policy_controller.Prelude.{
  ℕ, String, ◌≡◌, refl, ap, Bool, true, false, not, ◌&&◌, Option, none, some, List, Bool-cases, inl,
  inr, arith,
}
use mathlib.Core.Option
use config_policy_controller.Policy.{RelatedObject, is_inform, is_enforce}
use config_policy_controller.Json.{Fields}
use config_policy_controller.Enforce.{Requests, SingleObject, Checked, handle_single_obj}
use config_policy_controller.Enforce.Verdict.{handle_single_obj_inform}
use config_policy_controller.Update.{Environment, Job, Outcome, Session, returns}
use config_policy_controller.Update.Once.{check_and_update_resource}
use config_policy_controller.Update.Inform.{IsStored, check_and_update_resource-stored}

module _ {World Quantity : Type 0} (env : Environment World Quantity) (job : Job) where
  -- What `handleSingleObj` reads of an outcome.
  abbrev pub checked_of : Outcome → Checked
  checked_of outcome = record {
    throw_spec_violation = outcome.throw_spec_violation;
    msg = outcome.message;
    diff = outcome.diff;
    tried_update = outcome.update_needed;
    updated_uid = Option.map env.accessors.get_uid outcome.updated_obj;
  }

  -- In the given state, the check that `handleSingleObj` calls is `checkAndUpdateResource` for an
  -- existing object, which returns.
  pub record Runs (existing : Fields) (fuel : ℕ) (check : Session World → Session World × Checked)
      (s : Session World) : Type 0 where
    pub outcome : Outcome
    pub returned :
        check_and_update_resource env job fuel (some existing) s ≡ returns (check s).0 outcome
    pub checked : (check s).1 ≡ checked_of outcome

  module _ {Stored : Type 0} (stored : World → Stored) (requests : Requests (Session World)) where
    -- When `checkAndUpdateResource` returns in the given state, a policy that informs and does not
    -- enforce leaves the objects that the cluster stores as they were in `handleSingleObj`, after
    -- any number of conflicts, and reports no enforcement error, if dry runs and reads leave them.
    pub handle_single_obj-stored :
        (existing : Fields) (fuel : ℕ) (check : Session World → Session World × Checked)
        (s : Session World)
        → Runs existing fuel check s
        → IsStored env.client stored
        → is_inform job.remediation ≡ true
        → is_enforce job.remediation ≡ false
        → (o : SingleObject) (uid : Option String) (evaluated : Bool × Bool × String)
          (related : List RelatedObject)
        → (stored
              (handle_single_obj requests check o job.remediation uid evaluated related s).0.world
            ≡ stored s.world)
          × ((handle_single_obj requests check o job.remediation uid evaluated related
                s).1.0.enforcement_err
              ≡ none)
    unfolding handle_single_obj
    handle_single_obj-stored existing fuel check s runs is_stored informs gentle o none evaluated
          related =
        let (same, none') =
          handle_single_obj_inform requests check o job.remediation none evaluated related s gentle
            refl in
        (ap (λ x. stored x.world) same, none')
    handle_single_obj-stored existing fuel check s runs is_stored informs gentle o (some uid)
          evaluated related =
        let kept : stored (check s).0.world ≡ stored s.world =
          check_and_update_resource-stored env job stored is_stored informs fuel (some existing) s
            (check s).0 runs.outcome runs.returned in
        elim (Bool-cases (o.should_exist && not evaluated.0)) [
          | inr other ↦
              let (same, none') =
                handle_single_obj_inform requests check o job.remediation (some uid) evaluated
                  related s gentle other in
              (ap (λ x. stored x.world) same, none')
          | inl compared ↦
              let wanted : o.should_exist ≡ true = ground (arith, compared) in
              let fresh : evaluated.0 ≡ false = ground (arith, compared) in
              rw wanted (rw fresh (kept, refl))
        ]
