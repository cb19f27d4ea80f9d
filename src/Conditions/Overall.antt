-- ===== src/Conditions/Overall.antt =====
-- The overall compliance that `addForUpdate` derives, and how it meets the scheduling of the next
-- evaluation.
use config_policy_controller.Prelude.{ℕ, String, ◌≡◌, ◌≢◌, refl, Bool, false, some, arith, eq_iff}
use config_policy_controller.Policy.{ConfigurationPolicy, noncompliant, state_eq, TemplateStatus}
use config_policy_controller.Schedule.{
  Environment, is_stale, recreate_timed_out, should_evaluate_policy,
}
use config_policy_controller.Schedule.Decisions.{Obeys, awaited, should_evaluate_policy-IsSettled}
use config_policy_controller.Conditions.{overall_state, updated_for}

abbrev is_noncompliant : TemplateStatus → Bool
is_noncompliant d = state_eq d.compliance_state noncompliant

module _ {L : Type 0} (env : Environment) (policy : ConfigurationPolicy L) where
  -- After `addForUpdate` the next decision of `shouldEvaluatePolicy` goes by the evaluation
  -- interval of the new state, counted from the time of the update, if the cache holds that time
  -- too, the policy is not being deleted, no recreate timed out and the namespace selection did not
  -- change.
  pub should_evaluate_policy-updated_for :
      (now : String) (time : ℕ)
      → now ≢ ""
      → env.parse_time now ≡ some time
      → env.last_evaluated_cache policy.uid ≡ some now
      → policy.deletion_timestamp ≡ false
      → recreate_timed_out policy.status.compliancy_details ≡ false
      → env.has_update policy.namespace policy.name ≡ false
      → Obeys env time
          (awaited env policy (overall_state policy))
          (should_evaluate_policy env (updated_for policy now) false)
  unfolding updated_for is_stale
  should_evaluate_policy-updated_for now time set parsed cached alive recreated selected =
      should_evaluate_policy-IsSettled env (updated_for policy now) time (record {
        synced = rw (cached, is_stale) (ground (arith, eq_iff now now));
        alive = alive;
        evaluated = ground (arith, eq_iff now "");
        current = refl;
        recreated = rw recreated (ground arith);
        parsed = parsed;
        selected = rw selected (ground arith);
      })
