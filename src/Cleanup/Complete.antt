-- ===== src/Cleanup/Complete.antt =====
-- What the pruning does with every object, and how it reports it.
use config_policy_controller.Prelude.{
  String, ◌≡◌, ◌≢◌, ◌⊎◌, refl, Bool, true, false, ◌&&◌, Option, none, some, List, [], ◌∷◌, arith,
  eq_iff, Bool-cases, inl, inr, if◌then◌else◌,
}
use config_policy_controller.Prelude.Text.{str_eq}
use config_policy_controller.Policy.{
  ConfigurationPolicy, ObjectResource, ObjectProperties, RelatedObject, is_enforce,
}
use config_policy_controller.Cleanup.{
  Existing, Cluster, Fetched, found, unwatchable, GetAnswer, got, DeleteAnswer, accepted, Outcome,
  no_mapping, get_failed, absent, kept, already_deleting, delete_failed, still_there, deleted,
  prunes, created_here, needs_delete, get_object, delete_object, fetch, is_there, delete_and_verify,
  prune_existing, prune_fetched, prune_object, prune_all, to_prune, clean_up_child_objects,
}
use config_policy_controller.Cleanup.Safety.{IsWanted, needs_delete-IsWanted}

created_here_known :
    (known : Option ObjectProperties) (p : ObjectProperties) (e : Existing)
    → known ≡ some p
    → p.created_by_policy ≡ some true
    → str_eq p.uid e.uid ≡ true
    → created_here known e ≡ true
unfolding created_here
created_here_known known p e there by_policy same = rw there (rw by_policy same)

IsWanted-needs_delete :
    (behavior : String) (o : RelatedObject) (e : Existing)
    → IsWanted behavior o e
    → needs_delete behavior o e ≡ true
unfolding needs_delete
IsWanted-needs_delete behavior o e (inl all') = ground (arith, eq_iff behavior "DeleteAll", all')
IsWanted-needs_delete behavior o e (inr (created, (p, there, by_policy, same))) = ground (
  arith,
  eq_iff behavior "DeleteIfCreated",
  created,
  created_here_known o.properties p e there by_policy ((eq_iff p.uid e.uid).1 same),
)

module _ {World : Type 0} (cluster : Cluster World) (watch : Bool) (behavior : String) where
  -- The object exists, by the read in the given state.
  abbrev pub Exists : World → RelatedObject → Existing → Type 0
  Exists w o e = fetch cluster watch w o.object ≡ found (some e)

  -- One object is pruned: the state before, the object, its outcome and the state after. Only an
  -- object that is wanted gone and is not being deleted yet is deleted, and it is deleted when the
  -- cluster does not fail to and the read after that does not find it.
  pub data Prunes : World → RelatedObject → Outcome → World → Type 0 where
    prunes_unmapped :
        {w : World} {o : RelatedObject}
        → cluster.has_mapping o.object ≡ false
        → Prunes w o no_mapping w
    prunes_unread :
        {w : World} {o : RelatedObject}
        → (fetch cluster watch w o.object ≡ unwatchable)
          ⊎ (fetch cluster watch w o.object ≡ Fetched.failed)
        → Prunes w o get_failed w
    prunes_absent :
        {w : World} {o : RelatedObject}
        → fetch cluster watch w o.object ≡ found none
        → Prunes w o absent w
    prunes_kept :
        {w : World} {o : RelatedObject} (e : Existing)
        → Exists w o e
        → (IsWanted behavior o e → ⊥)
        → Prunes w o kept w
    prunes_deleting :
        {w : World} {o : RelatedObject} (e : Existing)
        → Exists w o e
        → IsWanted behavior o e
        → e.is_deleting ≡ true
        → Prunes w o already_deleting w
    prunes_undeleted :
        {w w' : World} {o : RelatedObject} (e : Existing)
        → Exists w o e
        → IsWanted behavior o e
        → e.is_deleting ≡ false
        → cluster.delete w o.object ≡ (w', DeleteAnswer.failed)
        → Prunes w o delete_failed w'
    prunes_still_there :
        {w w' : World} {o : RelatedObject} (e after : Existing) (a : DeleteAnswer)
        → Exists w o e
        → IsWanted behavior o e
        → e.is_deleting ≡ false
        → cluster.delete w o.object ≡ (w', a)
        → a ≢ DeleteAnswer.failed
        → cluster.get w' o.object ≡ got after
        → Prunes w o still_there w'
    prunes_deleted :
        {w w' : World} {o : RelatedObject} (e : Existing) (a : DeleteAnswer) (g : GetAnswer)
        → Exists w o e
        → IsWanted behavior o e
        → e.is_deleting ≡ false
        → cluster.delete w o.object ≡ (w', a)
        → a ≢ DeleteAnswer.failed
        → cluster.get w' o.object ≡ g
        → ((after : Existing) → g ≢ got after)
        → Prunes w o deleted w'

  -- The objects are pruned one after the other, each from the state that the one before left.
  pub data PrunesAll
      : World → List RelatedObject → List (RelatedObject × Outcome) → World → Type 0 where
    prunes_none : {w : World} → PrunesAll w [] [] w
    prunes_next :
        {w w' w'' : World} {o : RelatedObject} {os : List RelatedObject} {outcome : Outcome}
        {rs : List (RelatedObject × Outcome)}
        → Prunes w o outcome w'
        → PrunesAll w' os rs w''
        → PrunesAll w (o ∷ os) ((o, outcome) ∷ rs) w''

  -- The deletion of an object that is wanted gone.
  module _ (w : World) (o : RelatedObject) (e : Existing) (there : Exists w o e)
      (wanted : IsWanted behavior o e) (free : e.is_deleting ≡ false) where
    abbrev Verifies : World × Outcome → Type 0
    Verifies r = Prunes w o r.1 r.0

    read_again :
        (w' : World) (a : DeleteAnswer) (g : GetAnswer)
        → cluster.delete w o.object ≡ (w', a)
        → a ≢ DeleteAnswer.failed
        → cluster.get w' o.object ≡ g
        → Verifies (
            if is_there cluster (elim g as (λ _. Fetched) [
              | got e' ↦ found (some e')
              | GetAnswer.not_found ↦ found none
              | GetAnswer.failed ↦ Fetched.failed
            ])
            then (w', still_there)
            else (w', deleted))
    read_again w' a (got after) q ok p = prunes_still_there e after a there wanted free q ok p
    read_again w' a GetAnswer.not_found q ok p =
        prunes_deleted e a GetAnswer.not_found there wanted free q ok p
          (λ after h. absurd (ground (arith, h)))
    read_again w' a GetAnswer.failed q ok p =
        prunes_deleted e a GetAnswer.failed there wanted free q ok p
          (λ after h. absurd (ground (arith, h)))

    delete_and_verify-Prunes :
        (x : World × DeleteAnswer)
        → cluster.delete w o.object ≡ x
        → Verifies (delete_and_verify cluster w o.object)
    unfolding delete_and_verify delete_object get_object
    delete_and_verify-Prunes (w', DeleteAnswer.failed) q =
        rw (q, delete_object, q) (prunes_undeleted e there wanted free q)
    delete_and_verify-Prunes (w', accepted) q =
        rw (q, delete_object, q, get_object)
          (read_again w' accepted (cluster.get w' o.object) q (λ h. absurd (ground (arith, h)))
            refl)
    delete_and_verify-Prunes (w', DeleteAnswer.not_found) q =
        rw (q, delete_object, q, get_object)
          (read_again w' DeleteAnswer.not_found (cluster.get w' o.object) q
            (λ h. absurd (ground (arith, h))) refl)

  prune_existing-Prunes :
      (w : World) (o : RelatedObject) (e : Existing)
      → Exists w o e
      → (let r = prune_existing cluster behavior w o e in Prunes w o r.1 r.0)
  unfolding prune_existing
  prune_existing-Prunes w o e there = elim (Bool-cases (needs_delete behavior o e)) [
    | inr spared ↦ rw spared (
        prunes_kept e there
          (λ wanted. absurd (ground (arith, spared, IsWanted-needs_delete behavior o e wanted))))
    | inl needed ↦
        let wanted = needs_delete-IsWanted behavior o e needed in
        elim (Bool-cases e.is_deleting) [
          | inl busy ↦ rw needed (rw busy (prunes_deleting e there wanted busy))
          | inr free ↦ rw needed (
              rw free
                (delete_and_verify-Prunes w o e there wanted free (cluster.delete w o.object) refl))
        ]
  ]

  prune_fetched-Prunes :
      (w : World) (o : RelatedObject) (f : Fetched)
      → fetch cluster watch w o.object ≡ f
      → (let r = prune_fetched cluster behavior w o f in Prunes w o r.1 r.0)
  unfolding prune_fetched
  prune_fetched-Prunes w o unwatchable q = prunes_unread (inl q)
  prune_fetched-Prunes w o Fetched.failed q = prunes_unread (inr q)
  prune_fetched-Prunes w o (found none) q = prunes_absent q
  prune_fetched-Prunes w o (found (some e)) q = prune_existing-Prunes w o e q

  prune_object-Prunes :
      (w : World) (o : RelatedObject)
      → (let r = prune_object cluster watch behavior w o in Prunes w o r.1 r.0)
  unfolding prune_object
  prune_object-Prunes w o = elim (Bool-cases (cluster.has_mapping o.object)) [
    | inl mapped ↦ rw mapped (prune_fetched-Prunes w o (fetch cluster watch w o.object) refl)
    | inr unknown ↦ rw unknown (prunes_unmapped unknown)
  ]

  prune_all-PrunesAll :
      (w : World) (os : List RelatedObject)
      → (let r = prune_all cluster watch behavior w os in PrunesAll w os r.1 r.0)
  unfolding prune_all
  prune_all-PrunesAll w [] = prunes_none
  prune_all-PrunesAll w (o ∷ os) =
      prunes_next (prune_object-Prunes w o)
        (prune_all-PrunesAll (prune_object cluster watch behavior w o).0 os)

module _ {World : Type 0} (cluster : Cluster World) where
  -- If the policy enforces and prunes, the objects of the old status that are to be pruned are
  -- pruned one after the other, in their order and also after failures, and each is reported with
  -- what became of it: it is reported as kept only if it exists and is not wanted gone, and as
  -- deleted only if it exists, is wanted gone, was not being deleted yet, and is not found after a
  -- deletion that did not fail. Otherwise nothing is reported and the cluster stays as it is.
  pub clean_up_child_objects_complete :
      (gocmp_equal : ObjectResource → ObjectResource → Bool) {L : Type 0}
      (plc : ConfigurationPolicy L) (new_related : List RelatedObject) (watch : Bool) (w : World)
      → let r = clean_up_child_objects cluster gocmp_equal plc new_related watch w in
        (is_enforce plc.spec.remediation_action ≡ true)
          × (prunes plc.spec.prune_object_behavior ≡ true)
          × PrunesAll cluster watch plc.spec.prune_object_behavior w
              (to_prune gocmp_equal plc new_related)
              r.1
              r.0
        ⊎ ((is_enforce plc.spec.remediation_action && prunes plc.spec.prune_object_behavior)
            ≡ false)
          × (r ≡ (w, []))
  unfolding clean_up_child_objects
  clean_up_child_objects_complete gocmp_equal plc new_related watch w =
      elim (Bool-cases (is_enforce plc.spec.remediation_action)) [
        | inr idle ↦ rw idle (inr (refl, refl))
        | inl enforced ↦ elim (Bool-cases (prunes plc.spec.prune_object_behavior)) [
          | inr spared ↦ rw enforced (rw spared (inr (refl, refl)))
          | inl pruned ↦ rw enforced (
              rw pruned (
                inl (
                  refl,
                  refl,
                  prune_all-PrunesAll cluster watch plc.spec.prune_object_behavior w
                      (to_prune gocmp_equal plc new_related),
                )))
        ]
      ]
