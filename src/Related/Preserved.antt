-- ===== src/Related/Preserved.antt =====
-- What `updated_related_objects` takes over from the policy's old related objects.
use config_policy_controller.Prelude.{
  String, ◌≡◌, ◌⊎◌, refl, Bool, true, false, Bool-cases, eq_iff, Option, none, some, List, [], ◌∷◌,
  map, arith, Option-cases, inl, inr, if◌then◌else◌, ap,
}
use mathlib.Core.List.{Perm}
use mathlib.Core.Path.{fun_ext}
use config_policy_controller.Prelude.Order.{str_ltb_asym}
use config_policy_controller.Prelude.Sort.{sort_by, sort_by-perm, IsSorted, sort_by-IsSorted}
use config_policy_controller.Prelude.Text.{str_eq, str_ltb}
use config_policy_controller.Policy.{
  ConfigurationPolicy, ObjectResource, ObjectProperties, RelatedObject,
}
use config_policy_controller.Related.{
  taken_from, first_taken, preserve, updated_related_objects, related_less,
}

-- The one object stands before the other: by its kind, then its namespace, then its name.
abbrev pub Precedes : ObjectResource → ObjectResource → Type 0
Precedes a b =
    (str_ltb a.kind b.kind ≡ true)
    ⊎ (a.kind ≡ b.kind)
      × ((str_ltb a.namespace b.namespace ≡ true)
          ⊎ (a.namespace ≡ b.namespace) × (str_ltb a.name b.name ≡ true))

-- No entry's object stands before that of the entry before it.
abbrev pub InOrder : List RelatedObject → Type 0
InOrder [] = Unit
InOrder (x ∷ []) = Unit
InOrder (x ∷ y ∷ ys) = (¬ Precedes y.object x.object) × InOrder (y ∷ ys)

related_less_asym : (a b : RelatedObject) → related_less a b ≡ true → related_less b a ≡ false
unfolding related_less
related_less_asym a b h =
    let x = a.object in
    let y = b.object in
    ground (
      arith,
      h,
      eq_iff x.kind y.kind,
      eq_iff y.kind x.kind,
      eq_iff x.namespace y.namespace,
      eq_iff y.namespace x.namespace,
      str_ltb_asym x.kind y.kind,
      str_ltb_asym x.namespace y.namespace,
      str_ltb_asym x.name y.name,
    )

str_ltb_other : (s t : String) → str_ltb s t ≡ true → str_eq s t ≡ false
str_ltb_other s t h = elim (Bool-cases (str_eq s t)) [
  | inr other ↦ other
  | inl same ↦
      let e : s ≡ t = (eq_iff s t).0 same in
      let h' : str_ltb t t ≡ true = rw e at h in absurd (ground (arith, h', str_ltb_asym t t h'))
]

Precedes-related_less : (a b : RelatedObject) → Precedes a.object b.object → related_less a b ≡ true
unfolding related_less
Precedes-related_less a b (inl kind) =
    ground (arith, kind, str_ltb_other a.object.kind b.object.kind kind)
Precedes-related_less a b (inr (kind, inl namespace)) = ground (
  arith,
  eq_iff a.object.kind b.object.kind,
  kind,
  namespace,
  str_ltb_other a.object.namespace b.object.namespace namespace,
)
Precedes-related_less a b (inr (kind, inr (namespace, name))) = ground (
  arith,
  eq_iff a.object.kind b.object.kind,
  eq_iff a.object.namespace b.object.namespace,
  kind,
  namespace,
  name,
)

IsSorted-InOrder : (rs : List RelatedObject) → IsSorted related_less rs → InOrder rs
IsSorted-InOrder [] h = tt
IsSorted-InOrder (x ∷ []) h = tt
IsSorted-InOrder (x ∷ y ∷ ys) (h, rest) = (
  λ p. let less = Precedes-related_less y x p in ground (arith, h, less),
  IsSorted-InOrder (y ∷ ys) rest,
)

module _ (gocmp_equal : ObjectResource → ObjectResource → Bool) where
  -- The properties of the first old entry for the object that has any.
  abbrev pub known_properties : ObjectResource → List RelatedObject → Option ObjectProperties
  known_properties o [] = none
  known_properties o (r ∷ rs) =
      let rest = known_properties o rs in
      if gocmp_equal o r.object then elim (r.properties) [ none ↦ rest | some p ↦ some p ] else rest

  -- An object that was not created just now keeps what is known of its creation.
  abbrev pub with_known : ObjectProperties → Option ObjectProperties → ObjectProperties
  with_known new none = new
  with_known new (some p) = elim (new.created_by_policy) [
    | some false ↦ record new { created_by_policy = p.created_by_policy; uid = p.uid }
    | _ ↦ new
  ]

  first_taken_known :
      (entry : RelatedObject) (new : ObjectProperties) (olds : List RelatedObject)
      → elim (first_taken gocmp_equal entry new olds) [ none ↦ new | some p ↦ p ]
        ≡ with_known new (known_properties entry.object olds)
  unfolding first_taken taken_from
  first_taken_known entry new [] = refl
  first_taken_known entry new (old ∷ olds) = ground (arith, first_taken_known entry new olds)

  abbrev pub preserved : List RelatedObject → RelatedObject → RelatedObject
  preserved olds entry = elim (entry.properties) [
    | none ↦ entry
    | some new ↦ record entry {
      properties = some (with_known new (known_properties entry.object olds));
    }
  ]

  preserve_lem :
      (olds : List RelatedObject) (entry : RelatedObject)
      → preserve gocmp_equal olds entry ≡ preserved olds entry
  unfolding preserve
  preserve_lem olds entry = elim (Option-cases entry.properties) [
    | inl missing ↦ ground arith
    | inr (new, e) ↦ ground (arith, first_taken_known entry new olds)
  ]

  -- The updated list has the entries of the given one, in the order of their kinds, namespaces and
  -- names, each with what is known of its creation from the first old entry for the same object
  -- that has properties; nothing else changes.
  pub updated_related_objects_lem :
      {L : Type 0} (plc : ConfigurationPolicy L) (related : List RelatedObject)
      → (sorted : List RelatedObject) × Perm sorted related
        × InOrder sorted
        × (updated_related_objects gocmp_equal plc related
            ≡ map (preserved plc.status.related_objects) sorted)
  unfolding updated_related_objects
  updated_related_objects_lem plc related = (
    sort_by related_less related,
    sort_by-perm related_less related,
    IsSorted-InOrder _ (sort_by-IsSorted related_less related_less_asym related),
    ap (λ f. map f (sort_by related_less related))
        (fun_ext (preserve_lem plc.status.related_objects)),
  )
