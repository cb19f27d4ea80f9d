-- ===== src/Operator/Agreement.antt =====
-- Where the condition and the related objects of deployments and catalog sources agree.
use config_policy_controller.Prelude.{
  ℕ, String, ◌≡◌, ◌≢◌, ◌↔◌, ◌⊎◌, refl, sym, ◌∙◌, Bool, true, false, not, ◌&&◌, ◌||◌, Option, none,
  some, [], ◌∷◌, Bool-cases, inl, inr, arith, eq_iff, if◌then◌else◌,
}
use config_policy_controller.Prelude.Text.{str_eq}
use config_policy_controller.Policy.{Condition, RelatedObject, is_must_not_have}
use config_policy_controller.Operator.Status.{update_status}
use config_policy_controller.Operator.Response.{updated_to}
use config_policy_controller.Operator.{OperatorPolicy}
use config_policy_controller.Operator.Conds.{catalog_src_condition_type}
use config_policy_controller.Operator.Objs.{Object}
use config_policy_controller.Operator.Health.{catalog_source_find_cond, catalog_source_obj}
use config_policy_controller.Operator.Catalog.{
  CatalogName, FoundCatalog, catalog_failed, catalog_unreadable, catalog_missing, catalog_found,
  observed_catalog_source, handle_catalog_source, found_catalog_source, musthave_catalog_source,
}
use config_policy_controller.Operator.Lookup.{cond_at, IsUnique}
use config_policy_controller.Operator.Compliance.{HasStatus}
use config_policy_controller.Operator.Said.{update_status-HasStatus}

-- A problem of the catalog source that counts.
abbrev pub counts : String → Bool → Bool → Bool
counts config is_unhealthy is_missing =
    (is_unhealthy || is_missing) && not (str_eq config "Compliant")

catalog_source_find_cond_status :
    (config : String) (u m : Bool) (name : String)
    → (catalog_source_find_cond config u m name).status
      ≡ (if counts config u m then "True" else "False")
unfolding catalog_source_find_cond
catalog_source_find_cond_status config true true name = ground arith
catalog_source_find_cond_status config true false name = ground arith
catalog_source_find_cond_status config false true name = ground arith
catalog_source_find_cond_status config false false name = refl

catalog_source_obj_compliant :
    (config name ns : String) (u m : Bool)
    → (catalog_source_obj name ns u m config).compliant
      ≡ (if counts config u m then "NonCompliant" else "Compliant")
unfolding catalog_source_obj
catalog_source_obj_compliant config name ns u m = ground arith

pub false_no_true : ◌≢◌ {A = String} "True" "False"
false_no_true e =
    let same : str_eq "True" "False" ≡ true = (eq_iff "True" "False").1 e in ground (arith, same)

bad_no_good : ◌≢◌ {A = String} "NonCompliant" "Compliant"
bad_no_good e =
    let same : str_eq "NonCompliant" "Compliant" ≡ true = (eq_iff "NonCompliant" "Compliant").1 e in
    ground (arith, same)

module _ (policy : OperatorPolicy) (now : ℕ) (unique : IsUnique policy.status.conditions) where
  abbrev config : String
  config = policy.spec.compliance_config.catalog_source_unhealthy

  found_catalog_source-HasStatus :
      (catalog : CatalogName) (is_unhealthy is_missing : Bool)
      → (HasStatus
            (cond_at
              (found_catalog_source policy now catalog is_unhealthy
                is_missing).policy.status.conditions
              catalog_src_condition_type)
            "False"
          ↔ ((catalog_source_obj catalog.name catalog.namespace is_unhealthy is_missing
                config).compliant
              ≡ "Compliant"))
        × ((catalog_source_obj catalog.name catalog.namespace is_unhealthy is_missing
                config).compliant
              ≡ "Compliant"
            ↔ (((is_unhealthy || is_missing) ≡ false) ⊎ (config ≡ "Compliant")))
  unfolding found_catalog_source catalog_source_find_cond
  found_catalog_source-HasStatus catalog u m =
      let c = catalog_source_find_cond config u m catalog.name in
      let o = catalog_source_obj catalog.name catalog.namespace u m config in
      let written = update_status-HasStatus policy now c (o ∷ []) "False" unique refl in
      let c' = catalog_source_find_cond_status config u m catalog.name in
      let o' = catalog_source_obj_compliant config catalog.name catalog.namespace u m in
      elim (Bool-cases (counts config u m)) [
        | inl bad ↦
            let c'' : c.status ≡ "True" = rw bad at c' in
            let o'' : o.compliant ≡ "NonCompliant" = rw bad at o' in
            (
              (
                λ h. absurd (false_no_true (sym c'' ∙ written.0 h)),
                λ h. absurd (bad_no_good (sym o'' ∙ h)),
              ),
              (
                λ h. absurd (bad_no_good (sym o'' ∙ h)),
                λ h. absurd (ground (arith, h, bad, eq_iff config "Compliant")),
              ),
            )
        | inr good ↦
            let c'' : c.status ≡ "False" = rw good at c' in
            let o'' : o.compliant ≡ "Compliant" = rw good at o' in
            (
              (λ h. o'', λ h. written.1 c''),
              (λ h. ground (arith, good, eq_iff config "Compliant"), λ h. o''),
            )
      ]

-- The state of a catalog source that is there.
abbrev pub state_of : Option String → Option (Bool × Bool)
state_of none = none
state_of (some state) = some (not (str_eq state "READY"), false)

-- What is observed of a catalog source that is missing or whose state is known: whether it is
-- unhealthy, and whether it is missing.
abbrev pub observed : FoundCatalog → Option (Bool × Bool)
observed catalog_missing = some (true, true)
observed (catalog_found source) = state_of source.last_observed_state
observed (catalog_failed e) = none
observed (catalog_unreadable e) = none

module _ (policy : OperatorPolicy) (now : ℕ) (catalog : CatalogName) (u m : Bool) where
  observed_catalog_source_found :
      (object : Object) (o : Option String)
      → state_of o ≡ some (u, m)
      → observed_catalog_source policy now catalog object o
        ≡ found_catalog_source policy now catalog u m
  unfolding observed_catalog_source
  observed_catalog_source_found object none h = absurd (ground (arith, h))
  observed_catalog_source_found object (some state) h =
      let u' : not (str_eq state "READY") ≡ u = ground (arith, h) in
      let m' : false ≡ m = ground (arith, h) in rw (u', m') refl

  handle_catalog_source_found :
      (found : FoundCatalog)
      → is_must_not_have policy.spec.compliance_type ≡ false
      → observed found ≡ some (u, m)
      → handle_catalog_source policy now (some catalog) found
        ≡ found_catalog_source policy now catalog u m
  unfolding handle_catalog_source musthave_catalog_source
  handle_catalog_source_found (catalog_failed e) wanted h = absurd (ground (arith, h))
  handle_catalog_source_found (catalog_unreadable e) wanted h = absurd (ground (arith, h))
  handle_catalog_source_found catalog_missing wanted h =
      let u' : true ≡ u = ground (arith, h) in
      let m' : true ≡ m = ground (arith, h) in rw wanted (cc)
  handle_catalog_source_found (catalog_found source) wanted h =
      rw wanted (observed_catalog_source_found source.object source.last_observed_state h)

-- For a policy that does not call for the operator's absence and whose conditions have different
-- types: the handling of a catalog source that is missing or whose state is known sets the status
-- with one related object, of the name and namespace of the catalog source, and with a condition,
-- and gives no error. That object is compliant exactly if the source is there and ready or the
-- policy is configured to stay compliant; and exactly then the condition about catalog sources has
-- its compliant status afterwards.
pub handle_catalog_source-HasStatus :
    (policy : OperatorPolicy) (now : ℕ) (catalog : CatalogName) (found : FoundCatalog)
    (is_unhealthy is_missing : Bool)
    → IsUnique policy.status.conditions
    → is_must_not_have policy.spec.compliance_type ≡ false
    → observed found ≡ some (is_unhealthy, is_missing)
    → (c : Condition) × (o : RelatedObject) × (handle_catalog_source policy now (some catalog) found
        ≡ updated_to (update_status policy now c (o ∷ [])))
      × ((o.object.name ≡ catalog.name) × (o.object.namespace ≡ catalog.namespace))
      × (HasStatus
            (cond_at
              (handle_catalog_source policy now (some catalog) found).policy.status.conditions
              catalog_src_condition_type)
            "False"
          ↔ (o.compliant ≡ "Compliant"))
      × ((o.compliant ≡ "Compliant") ↔ (
          ((is_unhealthy || is_missing) ≡ false)
          ⊎ (policy.spec.compliance_config.catalog_source_unhealthy ≡ "Compliant")))
unfolding found_catalog_source catalog_source_obj
handle_catalog_source-HasStatus policy now catalog found u m unique wanted h =
    let config = policy.spec.compliance_config.catalog_source_unhealthy in
    let (told, counted) = found_catalog_source-HasStatus policy now unique catalog u m in
    (
      catalog_source_find_cond config u m catalog.name,
      catalog_source_obj catalog.name catalog.namespace u m config,
      handle_catalog_source_found policy now catalog u m found wanted h,
      (refl, refl),
      rw (handle_catalog_source_found policy now catalog u m found wanted h) told,
      counted,
    )
