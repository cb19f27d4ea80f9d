-- ===== src/Operator/Updated.antt =====
-- What `updateStatus` makes of the conditions and the compliance of an operator policy.
use config_policy_controller.Prelude.{
  ℕ, String, ◌≡◌, ◌↔◌, ◌⊎◌, refl, sym, ◌∙◌, ap, subst, Bool, false, ◌&&◌, some, List, [], ◌∷◌, All,
  inl, inr, arith, eq_iff, if_both, if_either, if◌then◌else◌, ◌==◌,
}
use config_policy_controller.Prelude.Text.{str_eq}
use config_policy_controller.Policy.{
  ComplianceState, compliant, noncompliant, Condition, RelatedObject,
}
use config_policy_controller.Operator.{OperatorPolicy}
use config_policy_controller.Operator.Conds.{compliant_condition_type, deprecation_type}
use config_policy_controller.Operator.Status.{
  known_conditions, check_all, calculate_compliance_condition, type_less, place, with_time,
  condition_is_new, update_compliance_condition, update_status,
}
use config_policy_controller.Operator.Lookup.{
  cond_at, IsUnique, cond_at-place, place-IsUnique, cond_at-sort_by, sort_by-IsUnique,
}
use config_policy_controller.Operator.Compliance.{
  HasStatus, IsKept, IsHealthy, calculate_compliance_condition-IsHealthy,
}

calculated_kind :
    (policy : OperatorPolicy) (now : ℕ)
    → (calculate_compliance_condition policy now).kind ≡ compliant_condition_type
unfolding calculate_compliance_condition
calculated_kind policy now =
    if_both (λ (x : Condition). x.kind ≡ compliant_condition_type)
      (check_all policy).found_noncompliant refl refl

-- Two lists of conditions say the same of every type but the one of the compliance.
abbrev pub Agree : List Condition → List Condition → Type 0
Agree cs ds = (t : String) → str_eq compliant_condition_type t ≡ false → cond_at cs t ≡ cond_at ds t

-- They say the same of the types that are checked.
abbrev pub AgreeChecked : List Condition → List Condition → Type 0
AgreeChecked cs ds =
    All (λ (k : String × (String × String)). cond_at cs k.0 ≡ cond_at ds k.0) known_conditions
    × (cond_at cs deprecation_type ≡ cond_at ds deprecation_type)

module _ (policy : OperatorPolicy) (cs ds : List Condition) where
  kept :
      (known : List (String × (String × String)))
      → All (λ (k : String × (String × String)). cond_at cs k.0 ≡ cond_at ds k.0) known
      → All (IsKept cs) known
      → All (IsKept ds) known
  kept [] o h = tt
  kept ((t, (unknown, wanted)) ∷ rest) (o, os) (p, h) =
      (subst (λ x. HasStatus x wanted) o p, kept rest os h)

  -- A policy that is healthy by the one is healthy by the other.
  pub IsHealthy-AgreeChecked : AgreeChecked cs ds → IsHealthy policy cs → IsHealthy policy ds
  IsHealthy-AgreeChecked (same, same') (known, last) = (
    kept known_conditions same known,
    λ reports. subst (λ x. HasStatus x "True") same' (last reports),
  )

pub Agree-AgreeChecked : (cs ds : List Condition) → Agree cs ds → AgreeChecked cs ds
Agree-AgreeChecked cs ds agree = (
  (
    agree _ refl,
    (
      agree _ refl,
      (
        agree _ refl,
        (agree _ refl, (agree _ refl, (agree _ refl, (agree _ refl, (agree _ refl, tt))))),
      ),
    ),
  ),
  agree deprecation_type refl,
)

pub IsHealthy-Agree :
    (policy : OperatorPolicy) (cs ds : List Condition)
    → Agree cs ds
    → IsHealthy policy cs
    → IsHealthy policy ds
IsHealthy-Agree policy cs ds agree =
    IsHealthy-AgreeChecked policy cs ds (Agree-AgreeChecked cs ds agree)

module _ (policy : OperatorPolicy) (now : ℕ) where
  conditions-updated :
      (t : String)
      → IsUnique policy.status.conditions
      → cond_at (update_compliance_condition policy now).status.conditions t ≡ (
          if str_eq compliant_condition_type t
          then some (calculate_compliance_condition policy now)
          else cond_at policy.status.conditions t)
  unfolding update_compliance_condition
  conditions-updated t u =
      let c = calculate_compliance_condition policy now in
      let cs = policy.status.conditions in
      cond_at-sort_by type_less (place c cs) t (place-IsUnique c cs u)
      ∙ cond_at-place c cs t
      ∙ ap (λ k. if str_eq k t then some c else cond_at cs t) (calculated_kind policy now)

-- The compliance state is that of the conditions, by their types, and so is the condition about it.
pub record IsConsistent (policy : OperatorPolicy) : Type 0 where
  pub unique : IsUnique policy.status.conditions
  pub state :
      ((policy.status.compliance_state ≡ compliant) × IsHealthy policy policy.status.conditions)
      ⊎ ((policy.status.compliance_state ≡ noncompliant)
          × ¬ IsHealthy policy policy.status.conditions)
  pub reported :
      HasStatus (cond_at policy.status.conditions compliant_condition_type) "True"
      ↔ IsHealthy policy policy.status.conditions

module _ (policy : OperatorPolicy) (now : ℕ) where
  update_compliance_condition-IsConsistent :
      IsUnique policy.status.conditions → IsConsistent (update_compliance_condition policy now)
  unfolding update_compliance_condition
  update_compliance_condition-IsConsistent u =
      let c = calculate_compliance_condition policy now in
      let cs = policy.status.conditions in
      let healthy = calculate_compliance_condition-IsHealthy policy now in
      let after = (update_compliance_condition policy now).status.conditions in
      let forth : Agree cs after = λ t other.
        sym (
          conditions-updated policy now t u ∙ ap (λ b. if b then some c else cond_at cs t) other) in
      let back : Agree after cs = λ t other. sym (forth t other) in
      let settled : c.status ≡ "True" ↔ IsHealthy policy after = (
        λ e. IsHealthy-Agree policy cs after forth (healthy.0 e),
        λ h. healthy.1 (IsHealthy-Agree policy after cs back h),
      ) in
      record {
        unique = sort_by-IsUnique type_less (place c cs) (place-IsUnique c cs u);
        state =
            if_either
              (λ (x : ComplianceState).
                ((x ≡ compliant) × IsHealthy policy after)
                ⊎ ((x ≡ noncompliant) × ¬ IsHealthy policy after))
              (str_eq c.status "True")
              (λ yes'. inl (refl, settled.0 ((eq_iff c.status "True").0 yes')))
              (λ no'. inr (
                refl,
                λ h.
                    let yes' = (eq_iff c.status "True").1 (settled.1 h) in
                    absurd (ground (arith, yes', no')),
              ));
        reported =
            subst (λ x. HasStatus x "True" ↔ IsHealthy policy after)
              (sym (conditions-updated policy now compliant_condition_type u)) settled;
      }

module _ (policy : OperatorPolicy) (now : ℕ) (c : Condition) (related : List RelatedObject) where
  abbrev is_new : Bool
  is_new = condition_is_new (with_time c now) policy.status.conditions

  -- The conditions before the compliance is calculated.
  abbrev placed : List Condition
  placed =
      if is_new then place (with_time c now) policy.status.conditions else policy.status.conditions

  placed-IsUnique : IsUnique policy.status.conditions → IsUnique placed
  placed-IsUnique u = if_both IsUnique is_new (place-IsUnique (with_time c now) _ u) u

  -- If no two conditions of the status have the same type, then after `updateStatus` none have
  -- either, the policy is compliant by its state exactly if it is healthy by its conditions, and
  -- the condition about the compliance says the same.
  pub update_status-IsConsistent :
      IsUnique policy.status.conditions → IsConsistent (update_status policy now c related).0
  unfolding update_status
  update_status-IsConsistent u =
      let placed_policy = record policy {
        status = record (policy.status) { conditions = placed };
      } in
      let done = update_compliance_condition-IsConsistent placed_policy now (placed-IsUnique u) in
      record { unique = done.unique; state = done.state; reported = done.reported }

  with_time_kind : (with_time c now).kind ≡ c.kind
  with_time_kind =
      if_both (λ (x : Condition). x.kind ≡ c.kind) (c.last_transition_time == 0) refl refl

  pub update_status-cond_at :
      (t : String)
      → IsUnique policy.status.conditions
      → str_eq compliant_condition_type t ≡ false
      → cond_at (update_status policy now c related).0.status.conditions t ≡ (
          if condition_is_new (with_time c now) policy.status.conditions && str_eq c.kind t
          then some (with_time c now)
          else cond_at policy.status.conditions t)
  unfolding update_status
  update_status-cond_at t u other =
      let cs = policy.status.conditions in
      let placed_policy = record policy {
        status = record (policy.status) { conditions = placed };
      } in
      let computed = conditions-updated placed_policy now t (placed-IsUnique u) in
      computed
      ∙ ap
          (λ b.
            if b then some (calculate_compliance_condition placed_policy now) else cond_at placed t)
          other
      ∙ if_either
          (λ x.
            cond_at x t
            ≡ (if is_new && str_eq c.kind t then some (with_time c now) else cond_at cs t))
          is_new
          (λ new'. rw new' (
            cond_at-place (with_time c now) cs t
            ∙ ap (λ k. if str_eq k t then some (with_time c now) else cond_at cs t) with_time_kind))
          (λ old. rw old refl)
