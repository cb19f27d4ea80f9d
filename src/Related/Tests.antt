-- ===== src/Related/Tests.antt =====
-- Runs of the functions on related objects, and their theorems at concrete lists.
use config_policy_controller.Prelude.{
  String, ◌≡◌, refl, Bool, true, false, none, some, List, [], ◌∷◌, map,
}
use mathlib.Core.List.{Perm}
use config_policy_controller.Policy.{RelatedObject, compliant}
use config_policy_controller.Schedule.Tests.{policy_with}
use config_policy_controller.Related.{
  ScopedGvr, object_eq, related_object, add_or_update_related_object, updated_related_objects,
}
use config_policy_controller.Related.Unique.{
  entry_of, updated_entry, add_or_update_related_object-entry_of,
}
use config_policy_controller.Related.Preserved.{InOrder, preserved, updated_related_objects_lem}

abbrev pub pods : ScopedGvr
pods = record { group_version = "v1"; resource = "pods"; namespaced = true }

abbrev pub a_pod : Bool → String → RelatedObject
a_pod ok name = related_object ok pods "Pod" "ns" "r" none name

updates_in_place :
    add_or_update_related_object (a_pod true "a" ∷ a_pod true "b" ∷ []) (a_pod false "a")
    ≡ a_pod false "a" ∷ a_pod true "b" ∷ []
unfolding add_or_update_related_object
updates_in_place = refl

add_or_update_related_object-entry_of_example :
    entry_of
      (a_pod true "a").object
      (add_or_update_related_object (a_pod true "a" ∷ []) (a_pod false "a"))
    ≡ some
        (updated_entry (a_pod false "a") (entry_of (a_pod false "a").object (a_pod true "a" ∷ [])))
add_or_update_related_object-entry_of_example =
    add_or_update_related_object-entry_of (a_pod true "a").object (a_pod true "a" ∷ [])
      (a_pod false "a")

updated_related_objects_lem_example :
    (sorted : List RelatedObject) × Perm sorted (a_pod true "b" ∷ a_pod true "a" ∷ [])
    × InOrder sorted
    × (updated_related_objects object_eq
          (policy_with "" compliant 1 [])
          (a_pod true "b" ∷ a_pod true "a" ∷ [])
        ≡ map (preserved object_eq []) sorted)
updated_related_objects_lem_example =
    updated_related_objects_lem object_eq (policy_with "" compliant 1 [])
      (a_pod true "b" ∷ a_pod true "a" ∷ [])
