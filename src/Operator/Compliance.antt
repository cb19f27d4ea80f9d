-- ===== src/Operator/Compliance.antt =====
-- When `calculateComplianceCondition` calls an operator policy compliant.
use config_policy_controller.Prelude.{
  ℕ, String, ◌≡◌, ◌≢◌, ◌↔◌, refl, sym, true, false, not, ◌||◌, Option, none, some, List, [], ◌∷◌,
  ◌++◌, All, arith, eq_iff, if_either,
}
use mathlib.Core.Option
use config_policy_controller.Prelude.Text.{str_eq}
use config_policy_controller.Policy.{Condition}
use config_policy_controller.Operator.{OperatorPolicy, get_condition}
use config_policy_controller.Operator.Conds.{deprecation_type}
use config_policy_controller.Operator.Status.{
  Verdict, check_condition, known_conditions, check_each, reports_deprecations, check_all,
  calculate_compliance_condition,
}
use config_policy_controller.Operator.Lookup.{cond_at, get_condition-cond_at}

-- There is a condition of the type, with the status.
abbrev pub HasStatus : Option Condition → String → Type 0
HasStatus none status = ⊥
HasStatus (some c) status = c.status ≡ status

abbrev pub IsKept : List Condition → String × (String × String) → Type 0
IsKept conditions (cond_type, (unknown, wanted)) = HasStatus (cond_at conditions cond_type) wanted

check_condition_lem :
    (conditions : List Condition) (cond_type unknown wanted : String) (v : Verdict)
    → (check_condition conditions cond_type unknown wanted v).found_noncompliant ≡ false
      ↔ ((v.found_noncompliant ≡ false) × HasStatus (cond_at conditions cond_type) wanted)
unfolding check_condition
check_condition_lem conditions cond_type unknown wanted v =
    rw (sym (get_condition-cond_at conditions cond_type)) (go (get_condition conditions cond_type))
  where
    go :
        (o : Option (ℕ × Condition))
        → (elim o as (λ x. Verdict) [
          | none ↦ record { found_noncompliant = true; messages = v.messages ++ unknown ∷ [] }
          | some (i, cond) ↦ record {
            found_noncompliant = v.found_noncompliant || not (str_eq cond.status wanted);
            messages = v.messages ++ cond.message ∷ [];
          }
        ]).found_noncompliant
            ≡ false
          ↔ ((v.found_noncompliant ≡ false)
              × HasStatus (Option.map (λ (x : ℕ × Condition). x.1) o) wanted)
    go none = (λ e. absurd (ground (arith, e)), λ h. absurd h.1)
    go (some (i, c)) = (
      λ e. (ground (arith, e), ground (arith, e, eq_iff c.status wanted)),
      λ (a, b). ground (arith, a, b, eq_iff c.status wanted),
    )

check_each_lem :
    (conditions : List Condition) (known : List (String × (String × String))) (v : Verdict)
    → (check_each conditions known v).found_noncompliant ≡ false
      ↔ ((v.found_noncompliant ≡ false) × All (IsKept conditions) known)
unfolding check_each
check_each_lem conditions [] v = (λ e. (e, tt), λ h. h.0)
check_each_lem conditions ((t, (unknown, wanted)) ∷ rest) v =
    let one = check_condition_lem conditions t unknown wanted v in
    let ih = check_each_lem conditions rest (check_condition conditions t unknown wanted v) in
    (
      λ e. let (a, b) = ih.0 e in let (c, d) = one.0 a in (c, (d, b)),
      λ (a, (b, c)). ih.1 (one.1 (a, b), c),
    )

-- What makes the policy compliant, of its conditions.
abbrev pub IsHealthy : OperatorPolicy → List Condition → Type 0
IsHealthy policy conditions =
    All (IsKept conditions) known_conditions
    × (reports_deprecations policy ≡ true → HasStatus (cond_at conditions deprecation_type) "True")

check_all_lem :
    (policy : OperatorPolicy)
    → (check_all policy).found_noncompliant ≡ false ↔ IsHealthy policy policy.status.conditions
unfolding check_all
check_all_lem policy =
    let conditions = policy.status.conditions in
    let start : Verdict = record { found_noncompliant = false; messages = [] } in
    let known = check_each conditions known_conditions start in
    let each = check_each_lem conditions known_conditions start in
    let last =
      check_condition_lem conditions deprecation_type "The deprecation status is unknown" "True"
        known in
    if_either (λ (x : Verdict). x.found_noncompliant ≡ false ↔ IsHealthy policy conditions)
      (reports_deprecations policy)
      (λ reports. (
        λ e. let (a, b) = last.0 e in ((each.0 a).1, λ q. b),
        λ (a, b). last.1 (each.1 (refl, a), b reports),
      ))
      (λ silent.
        (λ e. ((each.0 e).1, λ q. absurd (ground (arith, q, silent))), λ (a, b). each.1 (refl, a)))

false_no_true : ◌≢◌ {A = String} "False" "True"
false_no_true e =
    let same : str_eq "False" "True" ≡ true = (eq_iff "False" "True").1 e in ground (arith, same)

pub calculate_compliance_condition-IsHealthy :
    (policy : OperatorPolicy) (now : ℕ)
    → (calculate_compliance_condition policy now).status ≡ "True"
      ↔ IsHealthy policy policy.status.conditions
unfolding calculate_compliance_condition
calculate_compliance_condition-IsHealthy policy now =
    let all' = check_all_lem policy in
    if_either (λ (x : Condition). x.status ≡ "True" ↔ IsHealthy policy policy.status.conditions)
      (check_all policy).found_noncompliant
      (λ found. (λ e. absurd (false_no_true e), λ h. absurd (ground (arith, all'.1 h, found))))
      (λ fine. (λ e. all'.0 fine, λ h. refl))
