-- ===== src/Operator/Removed.antt =====
-- What the removal of an operator's objects deletes and reports.
use config_policy_controller.Prelude.{
  ℕ, String, ◌≡◌, ◌≢◌, refl, sym, ◌∙◌, ap, true, false, not, Option, none, some, List, [], ◌∷◌,
  ◌++◌, map, keep, any, Bool-cases, inl, inr, arith, eq_iff, if◌then◌else◌,
}
use mathlib.Core.List.{append-nil, append_assoc}
use config_policy_controller.Prelude.Text.{str_eq}
use config_policy_controller.Policy.{RelatedObject, is_inform}
use config_policy_controller.Operator.{OperatorPolicy, apply_defaults, is_keep}
use config_policy_controller.Operator.Objs.{Object, deleting_obj, deleted_obj}
use config_policy_controller.Operator.Status.{with_time, update_status}
use config_policy_controller.Operator.Lookup.{IsUnique}
use config_policy_controller.Operator.Said.{
  condition_is_new-Says, update_status-Says, update_status-condition_is_new,
}
use config_policy_controller.Operator.Conds.{
  cluster_service_version, found_not_wanted_cond, deleting_cond,
}
use config_policy_controller.Operator.Removal.{
  Found, Remover, all_handled, Removed, untouched, after_watch, after_delete, remove_each,
  report_removed, remove_found, mustnothave_csv,
}

-- The object after it was handled.
abbrev pub handled_obj : Found → RelatedObject
handled_obj o = if o.deleting then deleting_obj o.object else deleted_obj o.object

module _ {World : Type 0} (remover : Remover World) (sent : World → List Object) where
  -- The cluster notes the objects whose deletion it is asked for.
  pub record Notes : Type 0 where
    pub deletes : (o : Object) (w : World) → sent (remover.delete o w).0 ≡ sent w ++ o ∷ []
    pub watches : (o : Object) (w : World) → sent (remover.watch o w).0 ≡ sent w

  -- The objects that are not being deleted yet.
  abbrev pub to_delete : List Found → List Object
  to_delete objects = map (λ o. o.object) (keep (λ o. not o.deleting) objects)

  after_watch-all_handled :
      (o : Found) (os : List Found) (x : World × Option String) (rest : World × Removed)
      → (after_watch remover o os x rest).1.ended ≡ all_handled
      → ((after_watch remover o os x rest).0 ≡ rest.0)
        × ((after_watch remover o os x rest).1.related ≡ deleting_obj o.object ∷ rest.1.related)
        × ((after_watch remover o os x rest).1.any_already_deleting ≡ true)
        × (rest.1.ended ≡ all_handled)
  after_watch-all_handled o os (w, some e) rest h = absurd (ground (arith, h))
  after_watch-all_handled o os (w, none) (w', r) h = (refl, refl, refl, h)

  after_delete-all_handled :
      (o : Found) (os : List Found) (x : World × Option String) (rest : World × Removed)
      → (after_delete remover o os x rest).1.ended ≡ all_handled
      → ((after_delete remover o os x rest).0 ≡ rest.0)
        × ((after_delete remover o os x rest).1.related ≡ deleted_obj o.object ∷ rest.1.related)
        × ((after_delete remover o os x rest).1.any_already_deleting ≡ rest.1.any_already_deleting)
        × (rest.1.ended ≡ all_handled)
  after_delete-all_handled o os (w, some e) rest h = absurd (ground (arith, h))
  after_delete-all_handled o os (w, none) (w', r) h = (refl, refl, refl, h)

  -- If the cluster notes the objects whose deletion it is asked for: when the loop handles all
  -- objects, it has asked for the deletion of exactly those that were not being deleted yet, in
  -- their order, the related objects say so of each one, in its place, and it knows whether there
  -- were others.
  pub remove_each_lem :
      Notes
      → (objects : List Found) (w : World) → (remove_each remover objects w).1.ended ≡ all_handled
      → (sent (remove_each remover objects w).0 ≡ sent w ++ to_delete objects)
        × ((remove_each remover objects w).1.related ≡ map handled_obj objects)
        × ((remove_each remover objects w).1.any_already_deleting ≡ any (λ o. o.deleting) objects)
  unfolding remove_each
  remove_each_lem notes [] w e = (sym (append-nil (sent w)), refl, refl)
  remove_each_lem notes (o ∷ os) w e = elim (Bool-cases o.deleting) [
    | inl old ↦
        let watched = remover.watch o.object w in
        let rest = remove_each remover os watched.0 in
        let (world, related, any', ended) =
          after_watch-all_handled o os watched rest (rw (old, remove_each) at e) in
        let (asked, told, known) = remove_each_lem notes os watched.0 ended in
        rw old (
          ap sent world ∙ asked ∙ ap (λ l. l ++ to_delete os) (notes.watches o.object w),
          related ∙ ap (λ l. deleting_obj o.object ∷ l) told,
          any',
        )
    | inr new' ↦
        let gone = remover.delete o.object w in
        let rest = remove_each remover os gone.0 in
        let (world, related, any', ended) =
          after_delete-all_handled o os gone rest (rw (new', remove_each) at e) in
        let (asked, told, known) = remove_each_lem notes os gone.0 ended in
        rw new' (
          ap sent world
              ∙ asked
              ∙ ap (λ l. l ++ to_delete os) (notes.deletes o.object w)
              ∙ append_assoc (sent w) (o.object ∷ []) (to_delete os),
          related ∙ ap (λ l. deleted_obj o.object ∷ l) told,
          any' ∙ known,
        )
  ]

module _ {World : Type 0} (remover : Remover World) (policy : OperatorPolicy) (now : ℕ) where
  present_no_deleting :
      ◌≢◌ {A = String} "ClusterServiceVersionDeleting" "ClusterServiceVersionPresent"
  present_no_deleting e =
      let same : str_eq "ClusterServiceVersionDeleting" "ClusterServiceVersionPresent" ≡ true =
        (eq_iff "ClusterServiceVersionDeleting" "ClusterServiceVersionPresent").1 e in
      ground (arith, same)

  present_again :
      (names : List String) (related related' : List RelatedObject)
      → IsUnique policy.status.conditions
      → (update_status
          (update_status policy now (found_not_wanted_cond cluster_service_version names) related).0
          now
          (deleting_cond cluster_service_version names)
          related').1
        ≡ true
  unfolding found_not_wanted_cond deleting_cond
  present_again names related related' unique =
      let found = found_not_wanted_cond cluster_service_version names in
      let gone = deleting_cond cluster_service_version names in
      let first = (update_status policy now found related).0 in
      update_status-condition_is_new first now gone related' (
        condition_is_new-Says (with_time gone now) found first.status.conditions
          (update_status-Says policy now found related unique refl) present_no_deleting)

  -- When a policy that enforces and whose conditions have different types does not keep the
  -- versions, and the loop handles all of them and finds one that is being deleted already, the
  -- handling always reports a change of the status, whatever the status was, also when it said the
  -- same before.
  pub mustnothave_csv_again :
      (o : Found) (os : List Found) (namespace : String) (w : World)
      → IsUnique policy.status.conditions
      → is_inform policy.spec.remediation_action ≡ false
      → is_keep (apply_defaults policy.spec.removal_behavior).csvs ≡ false
      → (remove_each remover (o ∷ os) w).1.ended ≡ all_handled
      → (remove_each remover (o ∷ os) w).1.any_already_deleting ≡ true
      → (mustnothave_csv remover policy now (o ∷ os) namespace w).1.changed ≡ true
  unfolding mustnothave_csv remove_found report_removed
  mustnothave_csv_again o os namespace w unique enforces removes ended deleting =
      let names = map (λ (x : Found). x.object.name) (o ∷ os) in
      let found = found_not_wanted_cond cluster_service_version names in
      let first = update_status policy now found (untouched (o ∷ os)) in
      let r = (remove_each remover (o ∷ os) w).1 in
      rw removes (
        rw enforces (
          rw (ended, report_removed)
            (rw deleting (present_again names (untouched (o ∷ os)) r.related unique))))
