-- ===== src/Evaluated/Recall.antt =====
-- What the cache of evaluated objects recalls.
use config_policy_controller.Prelude.{
  String, ◌≡◌, refl, Bool, false, not, ◌&&◌, Option, none, some, List, [], Bool-cases, inl, inr,
  eq_iff, if◌then◌else◌,
}
use config_policy_controller.Prelude.Text.{str_eq}
use config_policy_controller.Prelude.Assoc.{find, put, find-put}
use config_policy_controller.Evaluated.{
  CachedEvaluationResult, ProcessedPolicyCache, policy_map, recalled, set_evaluated_object,
  already_evaluated,
}

already_evaluated-policy_map :
    (cache : ProcessedPolicyCache) (p u v : String)
    → already_evaluated cache p u v ≡ recalled (find u (policy_map cache p)) v
unfolding already_evaluated
already_evaluated-policy_map cache p u v = go (find p cache)
  where
    go :
        (o : Option (List (String × CachedEvaluationResult)))
        → elim o as (λ x. Bool × Bool × String) [
          | none ↦ (false, false, "")
          | some m ↦ recalled (find u m) v
        ]
          ≡ recalled
              (find u (elim o as (λ x. List (String × CachedEvaluationResult)) [
                | none ↦ []
                | some m ↦ m
              ]))
              v
    go none = refl
    go (some m) = refl

policy_map-set_evaluated_object :
    (cache : ProcessedPolicyCache) (p q u v : String) (compliant : Bool) (msg : String)
    → policy_map (set_evaluated_object cache p u v compliant msg) q ≡ (
        if str_eq p q
        then put u
            (record { resource_version = v; compliant = compliant; msg = msg })
            (policy_map cache p)
        else policy_map cache q)
unfolding set_evaluated_object
policy_map-set_evaluated_object cache p q u v compliant msg =
    let stored =
      put u (record { resource_version = v; compliant = compliant; msg = msg })
        (policy_map cache p) in
    rw (find-put q p stored cache, set_evaluated_object, policy_map)
      (elim (Bool-cases (str_eq p q)) [ inl same ↦ rw same refl | inr other ↦ rw other refl ])

-- After an object was evaluated for a policy, the cache recalls that result for them exactly while
-- the object has the same resource version, unless that is empty; what it recalls for other
-- policies and other objects stays the same.
pub already_evaluated-set_evaluated_object :
    (cache : ProcessedPolicyCache) (p q u w v x : String) (compliant : Bool) (msg : String)
    → already_evaluated (set_evaluated_object cache p u v compliant msg) q w x ≡ (
        if str_eq p q && str_eq u w
        then (not (str_eq v "") && str_eq v x, compliant, msg)
        else already_evaluated cache q w x)
already_evaluated-set_evaluated_object cache p q u w v x compliant msg =
    rw (already_evaluated-policy_map cache q w x) (
      rw (already_evaluated-policy_map (set_evaluated_object cache p u v compliant msg) q w x) (
        rw (policy_map-set_evaluated_object cache p q u v compliant msg)
          (elim (Bool-cases (str_eq p q)) [
            | inr other ↦ rw other refl
            | inl same ↦ rw same (
                rw (find-put w u _ (policy_map cache p)) (elim (Bool-cases (str_eq u w)) [
                  | inl hit ↦ rw hit refl
                  | inr miss ↦ rw miss (rw ((eq_iff p q).0 same) refl)
                ]))
          ])))
