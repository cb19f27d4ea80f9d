-- ===== src/Cleanup.antt =====
-- `cleanUpChildObjects` of controllers/configurationpolicy_controller.go: the pruning of objects
-- that a policy no longer manages. The cluster behind the API server is a parameter: its states
-- and what the requests answer in each state.
pub mod Safety
pub mod Complete
pub mod Tests
use config_policy_controller.Prelude.{
  String, Bool, true, false, not, ◌&&◌, ◌||◌, Option, none, some, List, [], ◌∷◌, ◌++◌, length, keep,
  ◌==◌, if◌then◌else◌,
}
use config_policy_controller.Prelude.Text.{str_eq}
use config_policy_controller.Policy.{
  ConfigurationPolicy, ObjectResource, ObjectProperties, RelatedObject, is_enforce,
}
use config_policy_controller.Related.{contain_related}

-- What the cleanup reads of an object on the cluster: its UID and whether it has a deletion
-- timestamp.
pub record Existing : Type 0 where
  pub uid : String
  pub is_deleting : Bool

-- The answer to a read: an error, or the object if there is one.
pub data Fetched : Type 0 where
  unwatchable failed : Fetched
  found : Option Existing → Fetched

-- The API server's answers to a read and to a deletion.
pub data GetAnswer : Type 0 where
  got : Existing → GetAnswer
  not_found failed : GetAnswer

pub data DeleteAnswer : Type 0 where
  accepted not_found failed : DeleteAnswer

-- The mapping of a kind to its resource, the reads from the watch cache and from the API server,
-- and the deletion.
pub record Cluster (World : Type 0) : Type 0 where
  pub has_mapping : ObjectResource → Bool
  pub watch_get : World → ObjectResource → Fetched
  pub get : World → ObjectResource → GetAnswer
  pub delete : World → ObjectResource → World × DeleteAnswer

-- How the handling of one object ends.
pub data Outcome : Type 0 where
  no_mapping get_failed absent kept already_deleting delete_failed still_there deleted : Outcome

-- The outcomes that are reported as deletion failures.
abbrev pub is_failure : Outcome → Bool
is_failure no_mapping = true
is_failure get_failed = true
is_failure absent = false
is_failure kept = false
is_failure already_deleting = true
is_failure delete_failed = true
is_failure still_there = true
is_failure deleted = false

-- Whether a deletion was requested.
abbrev pub is_request : Outcome → Bool
is_request delete_failed = true
is_request still_there = true
is_request deleted = true
is_request _ = false

unfoldable pub prunes : String → Bool
prunes behavior = str_eq behavior "DeleteAll" || str_eq behavior "DeleteIfCreated"

-- The policy created the object, and the object is still the one that it created.
unfoldable pub created_here : Option ObjectProperties → Existing → Bool
created_here none existing = false
created_here (some p) existing = elim (p.created_by_policy) [
  | some true ↦ str_eq p.uid existing.uid
  | _ ↦ false
]

unfoldable pub needs_delete : String → RelatedObject → Existing → Bool
unfolding created_here
needs_delete behavior object existing =
    if str_eq behavior "DeleteAll"
    then true
    else if str_eq behavior "DeleteIfCreated"
    then created_here object.properties existing
    else false

module _ (gocmp_equal : ObjectResource → ObjectResource → Bool) {L : Type 0} where
  -- The old related objects that are not among the new ones; all of them if there are no new ones.
  unfoldable pub to_prune : ConfigurationPolicy L → List RelatedObject → List RelatedObject
  unfolding contain_related
  to_prune plc new_related =
      if not (length new_related == 0)
      then keep (λ (r : RelatedObject). not (contain_related gocmp_equal new_related r))
          plc.status.related_objects
      else plc.status.related_objects

module _ {World : Type 0} (cluster : Cluster World) where
  -- `getObject`: an object that is not found is no error.
  unfoldable pub get_object : World → ObjectResource → Fetched
  get_object w o = elim (cluster.get w o) [
    | got e ↦ Fetched.found (some e)
    | GetAnswer.not_found ↦ Fetched.found none
    | GetAnswer.failed ↦ Fetched.failed
  ]

  -- `deleteObject`: so is the deletion of an object that is not found complete.
  unfoldable pub delete_object : World → ObjectResource → World × Bool
  delete_object w o =
      let answered = cluster.delete w o in
      elim (answered.1) [ DeleteAnswer.failed ↦ (answered.0, false) | _ ↦ (answered.0, true) ]

  -- The read through the watch, which turns to the API server for what cannot be watched.
  unfoldable pub fetch : Bool → World → ObjectResource → Fetched
  unfolding get_object
  fetch using_watch w o =
      if using_watch
      then elim (cluster.watch_get w o) [ unwatchable ↦ get_object w o | other ↦ other ]
      else get_object w o

  abbrev pub is_there : Fetched → Bool
  is_there (found (some e)) = true
  is_there _ = false

  -- The deletion, and the read after it that shows whether the object is gone.
  unfoldable pub delete_and_verify : World → ObjectResource → World × Outcome
  unfolding get_object delete_object
  delete_and_verify w o =
      let done = delete_object w o in
      if not done.1
      then (done.0, delete_failed)
      else if is_there (get_object done.0 o)
      then (done.0, still_there)
      else (done.0, deleted)

  unfoldable pub prune_existing : String → World → RelatedObject → Existing → World × Outcome
  unfolding needs_delete delete_and_verify
  prune_existing behavior w object existing =
      if not (needs_delete behavior object existing)
      then (w, kept)
      else if existing.is_deleting
      then (w, already_deleting)
      else delete_and_verify w object.object

  unfoldable pub prune_fetched : String → World → RelatedObject → Fetched → World × Outcome
  unfolding prune_existing
  prune_fetched behavior w object unwatchable = (w, get_failed)
  prune_fetched behavior w object Fetched.failed = (w, get_failed)
  prune_fetched behavior w object (found none) = (w, absent)
  prune_fetched behavior w object (found (some e)) = prune_existing behavior w object e

  -- The body of the loop over the objects to delete.
  unfoldable pub prune_object : Bool → String → World → RelatedObject → World × Outcome
  unfolding prune_fetched fetch
  prune_object using_watch behavior w object =
      if not (cluster.has_mapping object.object)
      then (w, no_mapping)
      else prune_fetched behavior w object (fetch using_watch w object.object)

  -- The loop: each object with its outcome.
  unfoldable pub prune_all :
      Bool → String → World → List RelatedObject → World × List (RelatedObject × Outcome)
  unfolding prune_object
  prune_all using_watch behavior w [] = (w, [])
  prune_all using_watch behavior w (o ∷ os) =
      let one = prune_object using_watch behavior w o in
      let rest = prune_all using_watch behavior one.0 os in (rest.0, (o, one.1) ∷ rest.1)

  module _ (gocmp_equal : ObjectResource → ObjectResource → Bool) {L : Type 0} where
    unfoldable pub clean_up_child_objects :
        ConfigurationPolicy L
        → List RelatedObject
        → Bool
        → World
        → World × List (RelatedObject × Outcome)
    unfolding prune_all to_prune
    clean_up_child_objects plc new_related using_watch w =
        if not (is_enforce plc.spec.remediation_action)
        then (w, [])
        else if not (prunes plc.spec.prune_object_behavior)
        then (w, [])
        else prune_all using_watch plc.spec.prune_object_behavior w
            (to_prune gocmp_equal plc new_related)

-- The deletion failures that the function returns, as the objects that it names.
abbrev pub failures : List (RelatedObject × Outcome) → List RelatedObject
failures [] = []
failures ((o, r) ∷ rest) = let more = failures rest in if is_failure r then o ∷ more else more
