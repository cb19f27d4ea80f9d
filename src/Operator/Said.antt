-- ===== src/Operator/Said.antt =====
-- What the condition of the given type says after `updateStatus`.
use config_policy_controller.Prelude.{
  ℕ, String, ◌≡◌, ◌≢◌, ◌↔◌, refl, sym, ◌∙◌, subst, Bool, true, false, ◌&&◌, Option, none, some,
  List, arith, eq_iff, eq_refl, if_both, if_either, if◌then◌else◌, ◌==◌,
}
use mathlib.Core.Option
use config_policy_controller.Prelude.Text.{str_eq}
use config_policy_controller.Policy.{Condition, RelatedObject}
use config_policy_controller.Operator.{OperatorPolicy, get_condition}
use config_policy_controller.Operator.Conds.{compliant_condition_type}
use config_policy_controller.Operator.Status.{
  with_time, condition_is_new, condition_changed, update_status,
}
use config_policy_controller.Operator.Lookup.{cond_at, get_condition-cond_at, IsUnique}
use config_policy_controller.Operator.Compliance.{HasStatus}
use config_policy_controller.Operator.Updated.{update_status-cond_at}

-- There is a condition with the status, the reason and the message.
abbrev pub Tells : Option Condition → String → String → String → Type 0
Tells none status reason message = ⊥
Tells (some d) status reason message =
    (d.status ≡ status) × (d.reason ≡ reason) × (d.message ≡ message)

-- There is a condition that says what the given one does.
abbrev pub Says : Option Condition → Condition → Type 0
Says o c = Tells o c.status c.reason c.message

-- A condition that is not new says what the one that is there does.
old-Says :
    (c : Condition) (cs : List Condition)
    → condition_is_new c cs ≡ false
    → Says (cond_at cs c.kind) c
unfolding condition_is_new condition_changed
old-Says c cs old =
    subst (λ x. Says x c) (get_condition-cond_at cs c.kind) (go (get_condition cs c.kind) old)
  where
    go :
        (o : Option (ℕ × Condition))
        → (elim o as (λ x. Bool) [
          | none ↦ true
          | some (i, existing) ↦ condition_changed c existing
        ])
          ≡ false
        → Says (Option.map (λ (x : ℕ × Condition). x.1) o) c
    go none h = absurd (ground (arith, h))
    go (some (i, e)) h = (
      sym (ground (arith, h, eq_iff c.status e.status)),
      sym (ground (arith, h, eq_iff c.reason e.reason)),
      sym (ground (arith, h, eq_iff c.message e.message)),
    )

-- A condition is new if the one that is there has another reason.
pub condition_is_new-Says :
    (c d : Condition) (cs : List Condition)
    → Says (cond_at cs c.kind) d
    → c.reason ≢ d.reason
    → condition_is_new c cs ≡ true
unfolding condition_is_new condition_changed
condition_is_new-Says c d cs says other =
    go (get_condition cs c.kind)
      (subst (λ x. Says x d) (sym (get_condition-cond_at cs c.kind)) says)
  where
    go :
        (o : Option (ℕ × Condition))
        → Says (Option.map (λ (x : ℕ × Condition). x.1) o) d
        → (elim o as (λ x. Bool) [
          | none ↦ true
          | some (i, existing) ↦ condition_changed c existing
        ])
          ≡ true
    go none h = absurd h
    go (some (i, e)) (s, r, m) = ground (arith, r, other, eq_iff c.reason e.reason)

with_time-Says :
    (c : Condition) (now : ℕ) (cs : List Condition)
    → condition_is_new (with_time c now) cs ≡ false
    → Says (cond_at cs c.kind) c
with_time-Says c now cs = go (c.last_transition_time == 0)
  where
    go :
        (b : Bool)
        → condition_is_new (if b then record c { last_transition_time = now } else c) cs ≡ false
        → Says (cond_at cs c.kind) c
    go true h = old-Says (record c { last_transition_time = now }) cs h
    go false h = old-Says c cs h

module _ (policy : OperatorPolicy) (now : ℕ) (c : Condition) (related : List RelatedObject) where
  -- The condition of the given type then says what the given one does.
  pub update_status-Says :
      IsUnique policy.status.conditions
      → str_eq compliant_condition_type c.kind ≡ false
      → Says (cond_at (update_status policy now c related).0.status.conditions c.kind) c
  update_status-Says u other =
      let cs = policy.status.conditions in
      subst (λ x. Says x c) (sym (update_status-cond_at policy now c related c.kind u other))
        (if_either (λ x. Says x c) (condition_is_new (with_time c now) cs && str_eq c.kind c.kind)
          (λ new'.
            if_both (λ (x : Condition). Says (some x) c) (c.last_transition_time == 0)
              (refl, refl, refl) (refl, refl, refl))
          (λ old. with_time-Says c now cs (ground (arith, old, eq_refl c.kind))))

  -- It has the status of the given one, whether it was written or was there.
  pub update_status-HasStatus :
      (status : String)
      → IsUnique policy.status.conditions
      → str_eq compliant_condition_type c.kind ≡ false
      → HasStatus (cond_at (update_status policy now c related).0.status.conditions c.kind) status
        ↔ (c.status ≡ status)
  update_status-HasStatus status u other =
      go (cond_at (update_status policy now c related).0.status.conditions c.kind)
        (update_status-Says u other)
    where
      go : (o : Option Condition) → Says o c → HasStatus o status ↔ (c.status ≡ status)
      go none h = absurd h
      go (some d) (s, r, m) = (λ q. sym s ∙ q, λ q. s ∙ q)

  -- A condition that is new is reported as a change.
  pub update_status-condition_is_new :
      condition_is_new (with_time c now) policy.status.conditions ≡ true
      → (update_status policy now c related).1 ≡ true
  unfolding update_status
  update_status-condition_is_new h = rw h refl
