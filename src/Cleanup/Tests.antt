-- ===== src/Cleanup/Tests.antt =====
-- Runs of the pruning, and its theorems at a concrete cluster.
use config_policy_controller.Prelude.{
  String, ◌≡◌, ◌⊎◌, refl, Bool, true, false, none, some, [], ◌∷◌, All, if◌then◌else◌, ◌&&◌,
}
use config_policy_controller.Policy.{
  ConfigurationPolicy, ObjectResource, RelatedObject, compliant, is_enforce,
}
use config_policy_controller.Schedule.Tests.{policy_with}
use config_policy_controller.Related.{object_eq}
use config_policy_controller.Cleanup.{
  to_prune, Existing, Cluster, GetAnswer, got, accepted, found, Outcome, kept, deleted, is_request,
  prunes, clean_up_child_objects,
}
use config_policy_controller.Cleanup.Safety.{
  IsDetached, IsWanted, WasThere, clean_up_child_objects_safe,
}
use config_policy_controller.Cleanup.Complete.{PrunesAll, clean_up_child_objects_complete}

abbrev one : ObjectResource
one = record { kind = "Pod"; api_version = "v1"; name = "a"; namespace = "ns" }

-- A cluster with one object of UID "u", which the world says is there or not.
abbrev small : Cluster Bool
small = record {
  has_mapping = λ o. true;
  watch_get =
      λ w o. if w then found (some (record { uid = "u"; is_deleting = false })) else found none;
  get = λ w o. if w then got (record { uid = "u"; is_deleting = false }) else GetAnswer.not_found;
  delete = λ w o. (false, accepted);
}

abbrev related : String → RelatedObject
related uid = record {
  properties = some (record { created_by_policy = some true; uid = uid; diff = "" });
  object = one;
  compliant = "Compliant";
  reason = "r";
}

abbrev plc : String → ConfigurationPolicy (Unit {0})
plc uid =
    let p = policy_with "" compliant 1 [] in
    record p { status = record (p.status) { related_objects = related uid ∷ [] } }

deletes_what_it_created :
    clean_up_child_objects small object_eq (plc "u") [] true true
    ≡ (false, (related "u", deleted) ∷ [])
unfolding clean_up_child_objects is_enforce prunes
deletes_what_it_created = refl

keeps_what_was_replaced :
    clean_up_child_objects small object_eq (plc "old") [] true true
    ≡ (true, (related "old", kept) ∷ [])
unfolding clean_up_child_objects is_enforce prunes
keeps_what_was_replaced = refl

clean_up_child_objects_safe_example :
    All
      (λ (r : RelatedObject × Outcome).
        (is_request r.1 ≡ false)
        ⊎ (is_enforce "enforce" ≡ true)
          × (prunes "DeleteIfCreated" ≡ true)
          × IsDetached small object_eq (plc "u") [] r.0
          × ((e : Existing) × IsWanted "DeleteIfCreated" r.0 e
              × (e.is_deleting ≡ false)
              × WasThere small true r.0 e))
      (clean_up_child_objects small object_eq (plc "u") [] true true).1
clean_up_child_objects_safe_example =
    clean_up_child_objects_safe small object_eq (plc "u") [] true true

clean_up_child_objects_complete_example :
    (is_enforce "enforce" ≡ true)
      × (prunes "DeleteIfCreated" ≡ true)
      × PrunesAll small true "DeleteIfCreated" true
          (to_prune object_eq (plc "old") [])
          (clean_up_child_objects small object_eq (plc "old") [] true true).1
          (clean_up_child_objects small object_eq (plc "old") [] true true).0
    ⊎ ((is_enforce "enforce" && prunes "DeleteIfCreated") ≡ false)
      × (clean_up_child_objects small object_eq (plc "old") [] true true ≡ (true, []))
clean_up_child_objects_complete_example =
    clean_up_child_objects_complete small object_eq (plc "old") [] true true
