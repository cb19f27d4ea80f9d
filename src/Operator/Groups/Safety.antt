-- ===== src/Operator/Groups/Safety.antt =====
-- What the handling of an unwanted operator group deletes.
use config_policy_controller.Prelude.{
  ℕ, String, ◌≡◌, ◌⊎◌, refl, sym, ◌∙◌, ap, Bool, true, false, not, Option, none, some, List, [],
  ◌∷◌, ◌++◌, any, All, Bool-cases, inl, inr, arith, eq_iff,
}
use config_policy_controller.Prelude.Text.{str_eq}
use config_policy_controller.Policy.{is_inform}
use config_policy_controller.Operator.{OperatorPolicy, apply_defaults, is_keep, is_delete_if_unused}
use config_policy_controller.Operator.Objs.{Object}
use config_policy_controller.Operator.Groups.{
  OpGroup, subs_failed, subs_listed, SubListing, Groups, GroupResponse, same_group,
}
use config_policy_controller.Operator.Groups.Unwanted.{
  group_deleted, delete_group, remove_group, subs_answered, mustnothave_op_group,
}

-- The wanted group with the name of the found one.
abbrev pub named_as : OpGroup → OpGroup → Object
named_as desired found = record (desired.object) { name = found.object.name }

module _ {World : Type 0} (groups : Groups World) (sent : World → List Object) where
  -- The cluster notes the objects whose deletion it is asked for.
  pub record Notes : Type 0 where
    pub deletes : (o : Object) (w : World) → sent (groups.delete o w).0 ≡ sent w ++ o ∷ []
    pub lists : (ns : String) (w : World) → sent (groups.list_subs ns w).0 ≡ sent w

  -- The subscriptions that are listed in the namespace all have the name.
  abbrev pub IsUnused : OpGroup → String → World → Type 0
  IsUnused desired sub_name w =
      (names : List String) × ((groups.list_subs desired.object.namespace w).1 ≡ subs_listed names)
      × All (λ n. n ≡ sub_name) names

  -- The policy may delete the found group.
  pub record MayDelete (policy : OperatorPolicy) (desired : OpGroup) (sub_name : String)
      (found : OpGroup) (w : World) : Type 0 where
    pub enforces : is_inform policy.spec.remediation_action ≡ false
    pub same : same_group desired found ≡ true
    pub unowned : found.owned ≡ false
    pub undeleted : found.deleting ≡ false
    pub unkept : is_keep (apply_defaults policy.spec.removal_behavior).operator_groups ≡ false
    pub unused :
        is_delete_if_unused (apply_defaults policy.spec.removal_behavior).operator_groups ≡ true
        → IsUnused desired sub_name w

  module _ (policy : OperatorPolicy) (now : ℕ) (notes : Notes) where
    group_deleted_world :
        (first : OperatorPolicy × Bool) (object : Object) (x : World × Option String)
        → (group_deleted groups policy now first object x).0 ≡ x.0
    group_deleted_world first object (w, none) = refl
    group_deleted_world first object (w, some e) = refl

    delete_group_asks :
        (object : Object) (deleting : Bool) (w : World)
        → (sent (delete_group groups policy now object deleting w).0 ≡ sent w)
          ⊎ ((is_inform policy.spec.remediation_action ≡ false)
              × (deleting ≡ false)
              × (sent (delete_group groups policy now object deleting w).0 ≡ sent w ++ object ∷ []))
    unfolding delete_group
    delete_group_asks object deleting w =
        elim (Bool-cases (is_inform policy.spec.remediation_action)) [
          | inl informs ↦ inl (rw informs refl)
          | inr enforces ↦ elim (Bool-cases deleting) [
            | inl old ↦ inl (rw enforces (rw old refl))
            | inr new' ↦ inr (
              enforces,
              new',
              rw enforces
                  (rw new' (ap sent (group_deleted_world _ object _) ∙ notes.deletes object w)),
            )
          ]
        ]

    remove_group_asks :
        (desired found : OpGroup) (keep : Bool) (w : World)
        → let after = (remove_group groups policy now desired found keep w).0 in
          (sent after ≡ sent w)
          ⊎ ((is_inform policy.spec.remediation_action ≡ false)
              × (same_group desired found ≡ true)
              × (found.owned ≡ false)
              × (found.deleting ≡ false)
              × (keep ≡ false)
              × (sent after ≡ sent w ++ named_as desired found ∷ []))
    unfolding remove_group
    remove_group_asks desired found true w = inl refl
    remove_group_asks desired found false w = elim (Bool-cases (same_group desired found)) [
      | inr other ↦ inl (rw other refl)
      | inl same ↦ elim (Bool-cases found.owned) [
        | inl owned ↦ inl (rw same (rw owned refl))
        | inr unowned ↦ elim (delete_group_asks (named_as desired found) found.deleting w) [
          | inl e ↦ inl (rw same (rw unowned e))
          | inr (enforces, new', e) ↦
              inr (enforces, same, unowned, new', refl, rw same (rw unowned e))
        ]
      ]
    ]

    all_named :
        (names : List String) (sub_name : String)
        → any (λ n. not (str_eq n sub_name)) names ≡ false
        → All (λ n. n ≡ sub_name) names
    all_named [] sub_name h = tt
    all_named (n ∷ names) sub_name h =
        (ground (arith, h, eq_iff n sub_name), all_named names sub_name (ground (arith, h)))

    -- A deletion is requested only if the policy may delete the found group.
    abbrev pub IsCareful : OpGroup → String → List OpGroup → World → World × GroupResponse → Type 0
    IsCareful desired sub_name found w after =
        (sent after.0 ≡ sent w)
        ⊎ ((g : OpGroup) × (found ≡ g ∷ [])
            × MayDelete policy desired sub_name g w
            × (sent after.0 ≡ sent w ++ named_as desired g ∷ []))

    remove_group-IsCareful :
        (desired g : OpGroup) (sub_name : String) (keep : Bool) (w w' : World)
        → sent w' ≡ sent w
        → (keep ≡ false
            → (is_keep (apply_defaults policy.spec.removal_behavior).operator_groups ≡ false)
              × (is_delete_if_unused (apply_defaults policy.spec.removal_behavior).operator_groups
                    ≡ true
                  → IsUnused desired sub_name w))
        → IsCareful desired sub_name (g ∷ []) w (remove_group groups policy now desired g keep w')
    remove_group-IsCareful desired g sub_name keep w w' kept allowed =
        elim (remove_group_asks desired g keep w') [
          | inl e ↦ inl (e ∙ kept)
          | inr (enforces, same, unowned, new', unkept, e) ↦ inr (
            g,
            refl,
            record {
              enforces = enforces;
              same = same;
              unowned = unowned;
              undeleted = new';
              unkept = (allowed unkept).0;
              unused = (allowed unkept).1;
            },
            e ∙ ap (λ l. l ++ named_as desired g ∷ []) kept,
          )
        ]

    subs_answered-IsCareful :
        (desired g : OpGroup) (sub_name : String) (w : World) (x : World × SubListing)
        → groups.list_subs desired.object.namespace w ≡ x
        → IsCareful desired sub_name (g ∷ []) w (
            subs_answered groups policy now desired g sub_name
              (is_keep (apply_defaults policy.spec.removal_behavior).operator_groups)
              x)
    subs_answered-IsCareful desired g sub_name w (w', subs_failed e) given =
        inl (sym (ap (λ y. sent y.0) given) ∙ notes.lists desired.object.namespace w)
    subs_answered-IsCareful desired g sub_name w (w', subs_listed names) given =
        remove_group-IsCareful desired g sub_name _ w w'
          (sym (ap (λ y. sent y.0) given) ∙ notes.lists desired.object.namespace w)
          (λ h. (
            ground (arith, h),
            λ i. (names, ap (λ y. y.1) given, all_named names sub_name (ground (arith, h))),
          ))

    -- If the cluster notes the objects whose deletion it is asked for: `mustnothaveOpGroup` asks
    -- for at most one deletion, and only if one group was found that has the wanted name, or the
    -- wanted prefix where no name is wanted, no owners, and is not being deleted yet, the policy
    -- does not inform and does not keep groups, and if it deletes only unused ones, the
    -- subscriptions that are listed in the namespace all have the name of the wanted one. What is
    -- deleted then has the name of the found group.
    pub mustnothave_op_group-IsCareful :
        (desired : OpGroup) (sub_name : String) (found : List OpGroup) (w : World)
        → IsCareful desired sub_name found w
            (mustnothave_op_group groups policy now desired sub_name found w)
    unfolding mustnothave_op_group
    mustnothave_op_group-IsCareful desired sub_name [] w = inl refl
    mustnothave_op_group-IsCareful desired sub_name (g ∷ h ∷ gs) w = inl refl
    mustnothave_op_group-IsCareful desired sub_name (g ∷ []) w =
        let behavior = (apply_defaults policy.spec.removal_behavior).operator_groups in
        elim (Bool-cases (is_delete_if_unused behavior)) [
          | inl asks ↦ rw asks (
              subs_answered-IsCareful desired g sub_name w
                (groups.list_subs desired.object.namespace w) refl)
          | inr no_asking ↦ rw no_asking (
              remove_group-IsCareful desired g sub_name (is_keep behavior) w w refl
                (λ unkept. (unkept, λ i. absurd (ground (arith, no_asking, i)))))
        ]
