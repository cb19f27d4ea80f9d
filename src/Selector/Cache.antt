-- ===== src/Selector/Cache.antt =====
-- The selections as a map: its keys, and what every operation keeps of them.
use Prim.Native.Char.{Char, char, code, IsScalar}
use Prim.Native.String.append
use mathlib.Core.Path.{subst}
use config_policy_controller.Prelude.Assoc.{find, put, remove, find-put, find-remove}
use config_policy_controller.Prelude.{
  String, ◌≡◌, refl, sym, ◌∙◌, ap, Bool, true, Option, none, some, List, [], ◌∷◌, arith, eq_iff,
  Bool-cases, inl, inr, is_some, ◌==◌,
}
use config_policy_controller.Prelude.Text.{str_eq, ◌<>◌}
use config_policy_controller.Selector.{get_key, cut, split_key, Selection, Selector, update}

-- The key is one that `getKey` makes, as far as `splitKey` can tell.
abbrev pub IsKey : String → Type 0
IsKey key = get_key (split_key key).0 (split_key key).1 ≡ key

append_cons : (c : Char) (s t : String) → String.◌∷◌ c s <> t ≡ String.◌∷◌ c (s <> t)
append_cons c s t = λ i. append.cons c s t i

append_nil : (t : String) → "" <> t ≡ t
append_nil t = λ i. append.nil t i

append_slash : (t : String) → "/" <> t ≡ String.◌∷◌ "/" t
append_slash t = append_cons "/" "" t ∙ ap (String.◌∷◌ "/") (append_nil t)

is_slash : (c : Char) → code c ≡ 47 → c ≡ "/"
is_slash (char n s) h = subst (λ m. (r : IsScalar m) → char m r ≡ "/") (sym h) (λ r. refl) s

abbrev WasCut : String → Option (String × String) → Type 0
WasCut s none = Unit
WasCut s (some (a, b)) = get_key a b ≡ s

cut_joins : (s : String) → WasCut s (cut s)
unfolding get_key
cut_joins String.[] = tt
cut_joins (String.◌∷◌ c s) = elim (Bool-cases (code c == 47)) [
  | inl e ↦ rw e (
      append_nil ("/" <> s)
      ∙ append_slash s
      ∙ ap (λ d. String.◌∷◌ d s) (sym (is_slash c (ground (arith, e)))))
  | inr e ↦ rw e (later (cut s) (cut_joins s))
]
  where
    later :
        (o : Option (String × String))
        → WasCut s o
        → WasCut (String.◌∷◌ c s) (elim o as (λ x. Option (String × String)) [
          | none ↦ none
          | some x ↦ some (String.◌∷◌ c x.0, x.1)
        ])
    later none h = tt
    later (some (a, b)) h = append_cons c a ("/" <> b) ∙ ap (String.◌∷◌ c) h

slash_found : (a b : String) → is_some (cut (a <> "/" <> b)) ≡ true
slash_found String.[] b = rw (append_nil ("/" <> b)) (rw (append_slash b) refl)
slash_found (String.◌∷◌ c a) b = rw (append_cons c a ("/" <> b)) (ground (arith, slash_found a b))

split_cut : (s : String) → is_some (cut s) ≡ true → IsKey s
unfolding split_key
split_cut s h = go (cut s) refl
  where
    was : {a b : String} → cut s ≡ some (a, b) → WasCut s (cut s) → get_key a b ≡ s
    was e w = rw e at w

    go : (o : Option (String × String)) → cut s ≡ o → IsKey s
    go none e = absurd (ground (arith, h, e))
    go (some (a, b)) e = rw (e, split_key) (was e (cut_joins s))

pub get_key-IsKey : (n m : String) → IsKey (get_key n m)
unfolding get_key
get_key-IsKey n m = split_cut (get_key n m) (slash_found n m)

module _ {L : Type 0} where
  -- No key twice, as in a Go map, and each made by `getKey`.
  abbrev pub IsCache : List (String × Selection L) → Type 0
  IsCache [] = Unit
  IsCache ((k, s) ∷ xs) = IsKey k × (find k xs ≡ none) × IsCache xs

  pub put-IsCache :
      (key : String) (s : Selection L) (xs : List (String × Selection L))
      → IsKey key
      → IsCache xs
      → IsCache (put key s xs)
  put-IsCache key s [] k h = (k, refl, tt)
  put-IsCache key s ((j, t) ∷ xs) k (a, b, c) = elim (Bool-cases (str_eq j key)) [
    | inl same ↦ rw same (a, b, c)
    | inr other ↦ rw other (
      a,
      rw (find-put j key s xs) (ground (arith, eq_iff key j, eq_iff j key)),
      put-IsCache key s xs k c,
    )
  ]

  pub remove-IsCache :
      (key : String) (xs : List (String × Selection L)) → IsCache xs → IsCache (remove key xs)
  remove-IsCache key [] h = tt
  remove-IsCache key ((j, t) ∷ xs) (a, b, c) = elim (Bool-cases (str_eq j key)) [
    | inl same ↦ rw same (remove-IsCache key xs c)
    | inr other ↦
        rw other (a, rw (find-remove j key xs) (ground (arith, b)), remove-IsCache key xs c)
  ]

  pub update-IsCache :
      (channel : Bool) (r : Selector L) (n m : String) (s : Selection L)
      → IsCache r.selections
      → IsCache (update channel r n m s).selections
  unfolding update
  update-IsCache channel r n m s h = put-IsCache (get_key n m) s r.selections (get_key-IsKey n m) h
