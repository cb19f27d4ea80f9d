-- ===== src/Related/Unique.antt =====
-- `add_or_update_related_object` acts on the list as a map from objects to entries.
use config_policy_controller.Prelude.{
  String, ◌≡◌, ◌↔◌, refl, sym, ap, ◌∙◌, Bool, true, false, not, ◌||◌, Option, none, some, List, [],
  ◌∷◌, ◌++◌, map, any, arith, eq_iff, eq_refl, Bool-cases, inl, inr, if◌then◌else◌,
}
use config_policy_controller.Prelude.Text.{str_eq}
use config_policy_controller.Policy.{ObjectResource, RelatedObject}
use config_policy_controller.Related.{
  object_eq, properties_eq, update_entry, add_or_update_related_object, add_each,
}

pub object_eq_iff : (a b : ObjectResource) → (object_eq a b ≡ true) ↔ (a ≡ b)
object_eq_iff a b = (
  λ h. ground (
    arith,
    eq_iff a.api_version b.api_version,
    eq_iff a.kind b.kind,
    eq_iff a.name b.name,
    eq_iff a.namespace b.namespace,
  ),
  λ h.
      rw h (
        ground (arith, eq_refl b.api_version, eq_refl b.kind, eq_refl b.name, eq_refl b.namespace)),
)

-- The entry of an object, if the list has one.
abbrev pub entry_of : ObjectResource → List RelatedObject → Option RelatedObject
entry_of o [] = none
entry_of o (r ∷ rs) = if object_eq r.object o then some r else entry_of o rs

abbrev pub has_object : ObjectResource → List RelatedObject → Bool
has_object o rs = any (λ (r : RelatedObject). object_eq r.object o) rs

-- No two entries are about one object.
abbrev pub IsUnique : List RelatedObject → Type 0
IsUnique [] = Unit
IsUnique (r ∷ rs) = (has_object r.object rs ≡ false) × IsUnique rs

update_entry-object : (r c : RelatedObject) → (update_entry r c).object ≡ c.object
unfolding update_entry
update_entry-object r c = ground (arith, object_eq_iff c.object r.object)

has_object-map :
    (o : ObjectResource) (r : RelatedObject) (rs : List RelatedObject)
    → has_object o (map (update_entry r) rs) ≡ has_object o rs
has_object-map o r [] = refl
has_object-map o r (c ∷ rs) = rw (update_entry-object r c) (rw (has_object-map o r rs))

has_object-append :
    (o : ObjectResource) (r : RelatedObject) (rs : List RelatedObject)
    → has_object o (rs ++ r ∷ []) ≡ (has_object o rs || object_eq r.object o)
has_object-append o r [] = ground arith
has_object-append o r (c ∷ rs) = ground (arith, has_object-append o r rs)

IsUnique-map :
    (r : RelatedObject) (rs : List RelatedObject) → IsUnique rs → IsUnique (map (update_entry r) rs)
IsUnique-map r [] h = tt
IsUnique-map r (c ∷ rs) (p, h) =
    (rw (update_entry-object r c) (rw (has_object-map c.object r rs) p), IsUnique-map r rs h)

IsUnique-append :
    (r : RelatedObject) (rs : List RelatedObject)
    → has_object r.object rs ≡ false
    → IsUnique rs
    → IsUnique (rs ++ r ∷ [])
IsUnique-append r [] n h = (refl, tt)
IsUnique-append r (c ∷ rs) n (p, h) = (
  rw (has_object-append c.object r rs)
      (ground (arith, object_eq_iff r.object c.object, object_eq_iff c.object r.object)),
  IsUnique-append r rs (ground arith) h,
)

or-eq-false : (a b : Bool) → (a || b) ≡ false → (a ≡ false) × (b ≡ false)
or-eq-false a b h = ground arith

other_object_left :
    (o p q : ObjectResource) → object_eq p o ≡ true → object_eq q o ≡ false → object_eq p q ≡ false
other_object_left o p q h n = elim (Bool-cases (object_eq p q)) [
  | inl same ↦
      let e : q ≡ o = sym ((object_eq_iff p q).0 same) ∙ (object_eq_iff p o).0 h in
      let found : object_eq q o ≡ true = (object_eq_iff q o).1 e in cc
  | inr other ↦ other
]

-- The list of related objects never gets two entries about one object.
pub add_or_update_related_object-IsUnique :
    (rs : List RelatedObject) (r : RelatedObject)
    → IsUnique rs
    → IsUnique (add_or_update_related_object rs r)
unfolding add_or_update_related_object
add_or_update_related_object-IsUnique rs r h = elim (Bool-cases (has_object r.object rs)) [
  | inl found ↦ rw found (IsUnique-map r rs h)
  | inr new ↦ rw new (
      IsUnique-append r (map (update_entry r) rs) (rw (has_object-map r.object r rs) new)
        (IsUnique-map r rs h))
]

pub add_each-IsUnique :
    (make : String → RelatedObject) (rs : List RelatedObject) (names : List String)
    → IsUnique rs
    → IsUnique (add_each make rs names)
unfolding add_each
add_each-IsUnique make rs [] h = h
add_each-IsUnique make rs (n ∷ ns) h =
    add_each-IsUnique make (add_or_update_related_object rs (make n)) ns
      (add_or_update_related_object-IsUnique rs (make n) h)

-- The entry that an update leaves for an object that had one, or had none.
abbrev pub updated_entry : RelatedObject → Option RelatedObject → RelatedObject
updated_entry r none = r
updated_entry r (some c) =
    if not (str_eq c.compliant r.compliant) || not (properties_eq c.properties r.properties)
    then r
    else c

other_object :
    (o p q : ObjectResource) → object_eq p o ≡ true → object_eq p q ≡ false → object_eq q o ≡ false
other_object o p q h n = elim (Bool-cases (object_eq q o)) [
  | inl same ↦
      let e : p ≡ q = (object_eq_iff p o).0 h ∙ sym ((object_eq_iff q o).0 same) in
      let found : object_eq p q ≡ true = (object_eq_iff p q).1 e in cc
  | inr other ↦ other
]

entry_of-append :
    (o : ObjectResource) (r : RelatedObject) (rs : List RelatedObject)
    → has_object r.object rs ≡ false
    → entry_of o (rs ++ r ∷ []) ≡ (if object_eq r.object o then some r else entry_of o rs)
entry_of-append o r [] n = refl
entry_of-append o r (c ∷ rs) n =
    let (n', later) = or-eq-false (object_eq c.object r.object) (has_object r.object rs) n in
    elim (Bool-cases (object_eq c.object o)) [
      | inl here ↦ rw here (rw (other_object o c.object r.object here n'))
      | inr there ↦ rw there (entry_of-append o r rs later)
    ]

update_entry-updated :
    (r c : RelatedObject)
    → object_eq c.object r.object ≡ true
    → update_entry r c ≡ updated_entry r (some c)
unfolding update_entry
update_entry-updated r c h = rw h

update_entry-other :
    (r c : RelatedObject) → object_eq c.object r.object ≡ false → update_entry r c ≡ c
unfolding update_entry
update_entry-other r c h = rw h

entry_of-map_other :
    (o : ObjectResource) (r : RelatedObject) (rs : List RelatedObject)
    → object_eq r.object o ≡ false
    → entry_of o (map (update_entry r) rs) ≡ entry_of o rs
entry_of-map_other o r [] n = refl
entry_of-map_other o r (c ∷ rs) n =
    rw (update_entry-object r c) (elim (Bool-cases (object_eq c.object o)) [
      | inl here ↦
          rw here (rw (update_entry-other r c (other_object_left o c.object r.object here n)))
      | inr there ↦ rw there (entry_of-map_other o r rs n)
    ])

entry_of-map_same :
    (r : RelatedObject) (rs : List RelatedObject)
    → has_object r.object rs ≡ true
    → entry_of r.object (map (update_entry r) rs) ≡ some (updated_entry r (entry_of r.object rs))
entry_of-map_same r [] h = cc
entry_of-map_same r (c ∷ rs) h = elim (Bool-cases (object_eq c.object r.object)) [
  | inl here ↦
      let kept : object_eq (update_entry r c).object r.object ≡ true =
        rw (update_entry-object r c) here in
      rw kept (rw here (ap some (update_entry-updated r c here)))
  | inr there ↦
      let kept : object_eq (update_entry r c).object r.object ≡ false =
        rw (update_entry-object r c) there in
      rw kept (rw there (entry_of-map_same r rs (rw there at h)))
]

entry_of-none :
    (o : ObjectResource) (rs : List RelatedObject) → has_object o rs ≡ false → entry_of o rs ≡ none
entry_of-none o [] h = refl
entry_of-none o (c ∷ rs) h =
    let (n, later) = or-eq-false (object_eq c.object o) (has_object o rs) h in
    rw n (entry_of-none o rs later)

-- As a map from objects to entries, the list of related objects changes at the given object only,
-- where the new entry stands unless the old one has the same compliance and the same properties.
pub add_or_update_related_object-entry_of :
    (o : ObjectResource) (rs : List RelatedObject) (r : RelatedObject)
    → entry_of o (add_or_update_related_object rs r) ≡ (
        if object_eq r.object o
        then some (updated_entry r (entry_of r.object rs))
        else entry_of o rs)
unfolding add_or_update_related_object
add_or_update_related_object-entry_of o rs r = elim (Bool-cases (has_object r.object rs)) [
  | inl found ↦ rw found (elim (Bool-cases (object_eq r.object o)) [
    | inl here ↦ rw here (rw (← (object_eq_iff r.object o).0 here) (entry_of-map_same r rs found))
    | inr there ↦ rw there (entry_of-map_other o r rs there)
  ])
  | inr new ↦ rw new (
      entry_of-append o r (map (update_entry r) rs) (rw (has_object-map r.object r rs) new)
      ∙ (elim (Bool-cases (object_eq r.object o)) [
        | inl here ↦ rw here (rw (entry_of-none r.object rs new))
        | inr there ↦ rw there (entry_of-map_other o r rs there)
      ]))
]
