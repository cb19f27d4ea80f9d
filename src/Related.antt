-- ===== src/Related.antt =====
-- The related objects of a policy: `addRelatedObjects`, `addCondensedRelatedObjs`,
-- `addOrUpdateRelatedObject` and `containRelated` of controllers/configurationpolicy_utils.go, and
-- `updatedRelatedObjects` of controllers/configurationpolicy_controller.go.
pub mod Unique
pub mod Preserved
pub mod Tests
use config_policy_controller.Prelude.{
  String, Bool, true, false, not, ◌&&◌, ◌||◌, Option, none, some, List, [], ◌∷◌, ◌++◌, map, any,
  if◌then◌else◌,
}
use config_policy_controller.Prelude.Text.{str_eq, str_ltb}
use config_policy_controller.Prelude.Sort.{sort_by, insert_by}
use config_policy_controller.Policy.{
  ConfigurationPolicy, ObjectResource, ObjectProperties, RelatedObject,
}

-- `depclient.ScopedGVR`: the group and version as text, the resource, and the scope.
pub record ScopedGvr : Type 0 where
  pub group_version : String
  pub resource : String
  pub namespaced : Bool

abbrev pub compliance_text : Bool → String
compliance_text true = "Compliant"
compliance_text false = "NonCompliant"

abbrev pub scoped_namespace : ScopedGvr → String → String
scoped_namespace gvr namespace = if gvr.namespaced then namespace else ""

abbrev pub bool_eq : Bool → Bool → Bool
bool_eq true b = b
bool_eq false b = not b

abbrev pub created_eq : Option Bool → Option Bool → Bool
created_eq none none = true
created_eq (some a) (some b) = bool_eq a b
created_eq _ _ = false

-- `reflect.DeepEqual` on the properties.
abbrev pub properties_eq : Option ObjectProperties → Option ObjectProperties → Bool
properties_eq none none = true
properties_eq (some p) (some q) =
    created_eq p.created_by_policy q.created_by_policy
    && (str_eq p.uid q.uid && str_eq p.diff q.diff)
properties_eq _ _ = false

abbrev pub object_eq : ObjectResource → ObjectResource → Bool
object_eq a b =
    str_eq a.api_version b.api_version
    && (str_eq a.kind b.kind && (str_eq a.name b.name && str_eq a.namespace b.namespace))

-- The entry of an object is replaced only if its compliance or its properties differ.
unfoldable pub update_entry : RelatedObject → RelatedObject → RelatedObject
update_entry related current =
    if object_eq current.object related.object
      && (not (str_eq current.compliant related.compliant)
          || not (properties_eq current.properties related.properties))
    then related
    else current

unfoldable pub add_or_update_related_object :
    List RelatedObject → RelatedObject → List RelatedObject
unfolding update_entry
add_or_update_related_object list related =
    let updated = map (update_entry related) list in
    if any (λ (current : RelatedObject). object_eq current.object related.object) list
    then updated
    else updated ++ related ∷ []

abbrev pub related_object :
    Bool → ScopedGvr → String → String → String → Option ObjectProperties → String → RelatedObject
related_object compliant gvr kind namespace reason creation_info name = record {
  properties = creation_info;
  object = record {
    kind = kind;
    api_version = gvr.group_version;
    name = name;
    namespace = scoped_namespace gvr namespace;
  };
  compliant = compliance_text compliant;
  reason = reason;
}

-- The loop of `addRelatedObjects`.
unfoldable pub add_each :
    (String → RelatedObject) → List RelatedObject → List String → List RelatedObject
unfolding add_or_update_related_object
add_each make related [] = related
add_each make related (name ∷ names) =
    add_each make (add_or_update_related_object related (make name)) names

unfoldable pub add_related_objects :
    Bool
    → ScopedGvr
    → String
    → String
    → List String
    → String
    → Option ObjectProperties
    → List RelatedObject
unfolding add_each
add_related_objects compliant gvr kind namespace names reason creation_info =
    add_each (related_object compliant gvr kind namespace reason creation_info) [] names

unfoldable pub add_condensed_related_objs :
    ScopedGvr → Bool → String → String → String → List RelatedObject
add_condensed_related_objs gvr compliant kind namespace reason =
    related_object compliant gvr kind namespace reason none "-" ∷ []

-- The comparison of `sort.SliceStable`: by kind, namespace and name.
unfoldable pub related_less : RelatedObject → RelatedObject → Bool
related_less a b =
    if not (str_eq a.object.kind b.object.kind)
    then str_ltb a.object.kind b.object.kind
    else if not (str_eq a.object.namespace b.object.namespace)
    then str_ltb a.object.namespace b.object.namespace
    else str_ltb a.object.name b.object.name

-- `gocmp.Equal` of the module github.com/google/go-cmp, on two object resources.
module _ (gocmp_equal : ObjectResource → ObjectResource → Bool) where
  unfoldable pub contain_related : List RelatedObject → RelatedObject → Bool
  contain_related related input =
      any (λ (r : RelatedObject). gocmp_equal r.object input.object) related

  -- What an old entry gives to the properties of a new one; `none` if nothing.
  unfoldable pub taken_from :
      RelatedObject → ObjectProperties → RelatedObject → Option ObjectProperties
  taken_from entry new old =
      if gocmp_equal entry.object old.object
      then elim (old.properties) [
        | none ↦ none
        | some p ↦ elim (new.created_by_policy) [
          | some false ↦ some (record new { created_by_policy = p.created_by_policy; uid = p.uid })
          | _ ↦ none
        ]
      ]
      else none

  -- The loop over the old entries, which ends at the first that gives something.
  unfoldable pub first_taken :
      RelatedObject → ObjectProperties → List RelatedObject → Option ObjectProperties
  unfolding taken_from
  first_taken entry new [] = none
  first_taken entry new (old ∷ olds) =
      let rest = first_taken entry new olds in
      elim (taken_from entry new old) [ none ↦ rest | some p ↦ some p ]

  unfoldable pub preserve : List RelatedObject → RelatedObject → RelatedObject
  unfolding first_taken
  preserve olds entry = elim (entry.properties) [
    | none ↦ entry
    | some new ↦ elim (first_taken entry new olds) [
      | none ↦ entry
      | some p ↦ record entry { properties = some p }
    ]
  ]

  unfoldable pub updated_related_objects :
      {L : Type 0} → ConfigurationPolicy L → List RelatedObject → List RelatedObject
  unfolding preserve related_less sort_by insert_by
  updated_related_objects plc related =
      map (preserve plc.status.related_objects) (sort_by related_less related)
