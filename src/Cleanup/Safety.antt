-- ===== src/Cleanup/Safety.antt =====
-- What the pruning may delete.
use config_policy_controller.Prelude.{
  String, ◌≡◌, refl, Bool, true, false, not, Option, none, some, List, [], ◌∷◌, ◌⊎◌, inl, inr, All,
  All-mono, In, In-All, All-keep_self, arith, eq_iff, Bool-cases, length, ◌==◌,
}
use config_policy_controller.Prelude.Text.{str_eq}
use config_policy_controller.Policy.{
  ConfigurationPolicy, ObjectResource, ObjectProperties, RelatedObject, is_enforce,
}
use config_policy_controller.Related.{contain_related}
use config_policy_controller.Cleanup.{
  Existing, Cluster, Fetched, found, failed, unwatchable, Outcome, is_request, prunes, created_here,
  needs_delete, delete_and_verify, prune_existing, prune_fetched, prune_object, prune_all, to_prune,
  clean_up_child_objects, fetch,
}

-- The pruning behaviour asks for the deletion of the existing object: of every object, or of one
-- that the policy created and that has not been replaced since.
abbrev pub IsWanted : String → RelatedObject → Existing → Type 0
IsWanted behavior o e =
    (behavior ≡ "DeleteAll")
    ⊎ (behavior ≡ "DeleteIfCreated")
      × ((p : ObjectProperties) × (o.properties ≡ some p)
          × (p.created_by_policy ≡ some true)
          × (p.uid ≡ e.uid))

created_here_sound :
    (o : Option ObjectProperties) (e : Existing)
    → created_here o e ≡ true
    → (p : ObjectProperties) × (o ≡ some p) × (p.created_by_policy ≡ some true) × (p.uid ≡ e.uid)
unfolding created_here
created_here_sound none e h = absurd (ground arith)
created_here_sound (some p) e h = (p, refl, ground arith, ground (arith, eq_iff p.uid e.uid))

pub needs_delete-IsWanted :
    (behavior : String) (o : RelatedObject) (e : Existing)
    → needs_delete behavior o e ≡ true
    → IsWanted behavior o e
unfolding needs_delete
needs_delete-IsWanted behavior o e h = elim (Bool-cases (str_eq behavior "DeleteAll")) [
  | inl all' ↦ inl ((eq_iff behavior "DeleteAll").0 all')
  | inr other ↦ inr (
    (eq_iff behavior "DeleteIfCreated").0 (ground arith),
    created_here_sound o.properties e (ground arith),
  )
]

empty_cases : (rs : List RelatedObject) → (rs ≡ []) ⊎ ((length rs == 0) ≡ false)
empty_cases [] = inl refl
empty_cases (r ∷ rs) = inr (ground arith)

not-eq-true : (b : Bool) → not b ≡ true → b ≡ false
not-eq-true b h = ground arith

module _ {World : Type 0} (cluster : Cluster World) where
  -- Nothing was requested and the cluster is as it was, or the deletion of an existing object that
  -- is not being deleted yet was asked for.
  abbrev pub IsCareful : Bool → String → World → RelatedObject → World × Outcome → Type 0
  IsCareful watch behavior w o r =
      (is_request r.1 ≡ false) × (r.0 ≡ w)
      ⊎ (is_request r.1 ≡ true)
        × ((e : Existing) × IsWanted behavior o e
            × (e.is_deleting ≡ false)
            × (fetch cluster watch w o.object ≡ found (some e)))

  delete_and_verify-is_request :
      (w : World) (o : ObjectResource) → is_request (delete_and_verify cluster w o).1 ≡ true
  unfolding delete_and_verify
  delete_and_verify-is_request w o = ground arith

  prune_existing-IsCareful :
      (watch : Bool) (behavior : String) (w : World) (o : RelatedObject) (e : Existing)
      → fetch cluster watch w o.object ≡ found (some e)
      → IsCareful watch behavior w o (prune_existing cluster behavior w o e)
  unfolding prune_existing
  prune_existing-IsCareful watch behavior w o e there =
      elim (Bool-cases (needs_delete behavior o e)) [
        | inl needed ↦ elim (Bool-cases e.is_deleting) [
          | inl busy ↦ rw needed (rw busy (inl (refl, refl)))
          | inr free ↦ rw needed (
              rw free (
                inr (
                  delete_and_verify-is_request w o.object,
                  (e, needs_delete-IsWanted behavior o e needed, free, there),
                )))
        ]
        | inr spared ↦ rw spared (inl (refl, refl))
      ]

  prune_fetched-IsCareful :
      (watch : Bool) (behavior : String) (w : World) (o : RelatedObject) (f : Fetched)
      → fetch cluster watch w o.object ≡ f
      → IsCareful watch behavior w o (prune_fetched cluster behavior w o f)
  unfolding prune_fetched
  prune_fetched-IsCareful watch behavior w o unwatchable there = inl (refl, refl)
  prune_fetched-IsCareful watch behavior w o failed there = inl (refl, refl)
  prune_fetched-IsCareful watch behavior w o (found none) there = inl (refl, refl)
  prune_fetched-IsCareful watch behavior w o (found (some e)) there =
      prune_existing-IsCareful watch behavior w o e there

  prune_object-IsCareful :
      (watch : Bool) (behavior : String) (w : World) (o : RelatedObject)
      → IsCareful watch behavior w o (prune_object cluster watch behavior w o)
  unfolding prune_object
  prune_object-IsCareful watch behavior w o = elim (Bool-cases (cluster.has_mapping o.object)) [
    | inl mapped ↦
        rw mapped (prune_fetched-IsCareful watch behavior w o (fetch cluster watch w o.object) refl)
    | inr unknown ↦ rw unknown (inl (refl, refl))
  ]

  -- The object was read at some state of the cluster.
  abbrev pub WasThere : Bool → RelatedObject → Existing → Type 0
  WasThere watch o e = (w : World) × (fetch cluster watch w o.object ≡ found (some e))

  -- One object of the loop with its outcome, whatever state the cluster was in by then.
  abbrev WasCareful : Bool → String → RelatedObject × Outcome → Type 0
  WasCareful watch behavior (o, r) =
      (is_request r ≡ false)
      ⊎ (is_request r ≡ true)
        × ((e : Existing) × IsWanted behavior o e × (e.is_deleting ≡ false) × WasThere watch o e)

  was_careful :
      (watch : Bool) (behavior : String) (w : World) (o : RelatedObject) (r : World × Outcome)
      → IsCareful watch behavior w o r
      → WasCareful watch behavior (o, r.1)
  was_careful watch behavior w o r (inl (h, _)) = inl h
  was_careful watch behavior w o r (inr (h, (e, wanted, free, there))) =
      inr (h, (e, wanted, free, (w, there)))

  prune_all-All :
      (P : RelatedObject → Type 0) (watch : Bool) (behavior : String) (w : World)
      (os : List RelatedObject)
      → All P os
      → All
          (λ (r : RelatedObject × Outcome). P r.0 × WasCareful watch behavior r)
          (prune_all cluster watch behavior w os).1
  unfolding prune_all
  prune_all-All P watch behavior w [] h = tt
  prune_all-All P watch behavior w (o ∷ os) (p, h) = (
    (p, was_careful watch behavior w o _ (prune_object-IsCareful watch behavior w o)),
    prune_all-All P watch behavior (prune_object cluster watch behavior w o).0 os h,
  )

  module _ (gocmp_equal : ObjectResource → ObjectResource → Bool) {L : Type 0}
      (plc : ConfigurationPolicy L) (new_related : List RelatedObject) where
    -- An object of the old status that the new related objects, if there are any, do not contain.
    abbrev pub IsDetached : RelatedObject → Type 0
    IsDetached o =
        In o plc.status.related_objects
        × ((new_related ≡ []) ⊎ (contain_related gocmp_equal new_related o ≡ false))

    to_prune-IsDetached : All IsDetached (to_prune gocmp_equal plc new_related)
    unfolding to_prune
    to_prune-IsDetached = elim (empty_cases new_related) [
      | inl none' ↦ rw none' (
          All-mono (λ o h. (h, inl refl)) plc.status.related_objects
            (In-All plc.status.related_objects))
      | inr some' ↦ rw some' (
          All-mono (λ o h. (h.0, inr (not-eq-true _ h.1))) _
            (All-keep_self (λ (r : RelatedObject). not (contain_related gocmp_equal new_related r))
              plc.status.related_objects))
    ]

    -- A deletion is requested only if the policy enforces and prunes, and only of a related object
    -- of the old status that the new related objects do not contain (if there are any), that was
    -- read in some state of the cluster, was not being deleted yet then, and is wanted gone: by
    -- `DeleteAll`, or by `DeleteIfCreated` if the policy created it and its UID is still the same.
    pub clean_up_child_objects_safe :
        (watch : Bool) (w : World)
        → All
            (λ (r : RelatedObject × Outcome).
              (is_request r.1 ≡ false)
              ⊎ (is_enforce plc.spec.remediation_action ≡ true)
                × (prunes plc.spec.prune_object_behavior ≡ true)
                × IsDetached r.0
                × ((e : Existing) × IsWanted plc.spec.prune_object_behavior r.0 e
                    × (e.is_deleting ≡ false)
                    × WasThere watch r.0 e))
            (clean_up_child_objects cluster gocmp_equal plc new_related watch w).1
    unfolding clean_up_child_objects
    clean_up_child_objects_safe watch w =
        elim (Bool-cases (is_enforce plc.spec.remediation_action)) [
          | inr idle ↦ rw idle tt
          | inl enforced ↦ elim (Bool-cases (prunes plc.spec.prune_object_behavior)) [
            | inr spared ↦ rw enforced (rw spared tt)
            | inl pruned ↦ rw enforced (
                rw pruned (
                  All-mono
                    (λ r h. elim (h.1) [ inl n ↦ inl n | inr (_, e) ↦ inr (refl, refl, h.0, e) ]) _
                    (prune_all-All IsDetached watch plc.spec.prune_object_behavior w _
                      to_prune-IsDetached)))
          ]
        ]
