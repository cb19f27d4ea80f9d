-- ===== src/Operator/Reported.antt =====
-- What `updateStatus` reports, and what the condition about an unknown catalog source does.
use config_policy_controller.Prelude.{
  ℕ, ◌≡◌, refl, sym, ◌∙◌, ap, false, ◌&&◌, some, List, inl, inr, arith, if◌then◌else◌,
}
use config_policy_controller.Prelude.Text.{str_eq}
use config_policy_controller.Policy.{Condition, RelatedObject}
use config_policy_controller.Operator.{OperatorPolicy}
use config_policy_controller.Operator.Status.{
  with_time, condition_is_new, update_related, update_compliance_condition, update_status,
}
use config_policy_controller.Operator.Lookup.{cond_at}
use config_policy_controller.Operator.Compliance.{IsHealthy}
use config_policy_controller.Operator.Updated.{
  Agree, IsHealthy-Agree, IsConsistent, update_status-IsConsistent, update_status-cond_at,
}

update_related_unchanged :
    (related updated : List RelatedObject)
    → (update_related related updated).1 ≡ false
    → (update_related related updated).0 ≡ related
unfolding update_related
update_related_unchanged related updated h = rw h refl

-- Two consistent policies that are healthy alike have the same state.
same_state :
    (p q : OperatorPolicy)
    → IsConsistent p
    → IsConsistent q
    → (IsHealthy p p.status.conditions → IsHealthy q q.status.conditions)
    → (IsHealthy q q.status.conditions → IsHealthy p p.status.conditions)
    → p.status.compliance_state ≡ q.status.compliance_state
same_state p q a b forth back = elim (a.state) [
  | inl (s, h) ↦ elim (b.state) [ inl (s', h') ↦ s ∙ sym s' | inr (s', h') ↦ absurd (h' (forth h)) ]
  | inr (s, h) ↦ elim (b.state) [ inl (s', h') ↦ absurd (h (back h')) | inr (s', h') ↦ s ∙ sym s' ]
]

module _ (policy : OperatorPolicy) (now : ℕ) (c : Condition) (related : List RelatedObject) where
  abbrev after : OperatorPolicy
  after = (update_status policy now c related).0

  -- When `updateStatus` reports no change of a policy whose state and conditions are consistent,
  -- the state of the policy and its related objects are as before, its generation was observed
  -- before, and all conditions are as before but for the one about the compliance.
  pub update_status_unreported :
      IsConsistent policy
      → (update_status policy now c related).1 ≡ false
      → (after.status.compliance_state ≡ policy.status.compliance_state)
        × (after.status.related_objects ≡ policy.status.related_objects)
        × (policy.generation ≡ policy.status.observed_generation)
        × Agree after.status.conditions policy.status.conditions
  unfolding update_status update_compliance_condition
  update_status_unreported consistent h =
      let cs = policy.status.conditions in
      let old : condition_is_new (with_time c now) cs ≡ false = ground (arith, h) in
      let agree : Agree after.status.conditions cs = λ t other.
        update_status-cond_at policy now c related t consistent.unique other
        ∙ ap (λ b. if b && str_eq c.kind t then some (with_time c now) else cond_at cs t) old in
      let agree' : Agree cs after.status.conditions = λ t other. sym (agree t other) in
      (
        sym (
            same_state policy after consistent
              (update_status-IsConsistent policy now c related consistent.unique)
              (IsHealthy-Agree policy cs after.status.conditions agree')
              (IsHealthy-Agree policy after.status.conditions cs agree)),
        update_related_unchanged policy.status.related_objects related (ground (arith, h)),
        ground (arith, h),
        agree,
      )
