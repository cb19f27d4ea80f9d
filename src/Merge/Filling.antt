-- ===== src/Merge/Filling.antt =====
-- The inner loop of `mergeArrays`, and the count of what is still to come.
use config_policy_controller.Prelude.{
  ℕ, suc, ◌+◌, ◌≤◌, ◌<◌, String, ◌≡◌, refl, ap, Bool, true, false, not, ◌&&◌, inl, inr, List, [],
  ◌∷◌, map, any, All, All-mono, length, arith, eq_iff, eq_refl, Bool-cases, if_both, if_either,
  if◌then◌else◌, ◌==◌,
}
use config_policy_controller.Prelude.Text.{str_eq}
use config_policy_controller.Json.{Value, Items, nil, cons, items, of_list}
use config_policy_controller.Json.Print.{sprint, sprint_items}
use config_policy_controller.Merge.{Slot, slots_of, occurrences, fill}

abbrev pub originals : List Slot → List Value
originals ss = map (λ (s : Slot). s.original) ss

pub items-of_list : (vs : List Value) → items (of_list vs) ≡ vs
items-of_list [] = refl
items-of_list (v ∷ vs) = ap (λ ws. v ∷ ws) (items-of_list vs)

pub originals-slots_of : (vs : List Value) → originals (slots_of vs) ≡ vs
originals-slots_of [] = refl
originals-slots_of (v ∷ vs) = ap (λ ws. v ∷ ws) (originals-slots_of vs)

-- The values of `keys` that are not among `seen`.
unfoldable pub unseen : List String → List String → ℕ
unseen seen [] = 0
unseen seen (k ∷ ks) =
    let rest = unseen seen ks in if any (λ (j : String). str_eq j k) seen then rest else suc rest

pub unseen-cons :
    (key : String) (seen keys : List String)
    → any (λ (k : String). str_eq k key) seen ≡ false
    → unseen (key ∷ seen) keys + occurrences key keys ≡ unseen seen keys
unfolding unseen
unseen-cons key seen [] h = omega arith
unseen-cons key seen (k ∷ ks) h = elim (Bool-cases (str_eq k key)) [
  | inl same ↦
      let e : k ≡ key = (eq_iff k key).0 same in
      let h' : any (λ (j : String). str_eq j k) seen ≡ false = rw e h in
      ground (arith, unseen-cons key seen ks h, eq_iff k key, eq_iff key k)
  | inr other ↦ ground (arith, unseen-cons key seen ks h, eq_iff k key, eq_iff key k)
]

pub unseen_none : (keys : List String) → unseen [] keys ≡ length keys
unfolding unseen
unseen_none [] = refl
unseen_none (k ∷ ks) = omega (arith, unseen_none ks)

pub length-sprint_items : (xs : Items) → length (sprint_items xs) ≡ length (items xs)
unfolding sprint_items
length-sprint_items nil = refl
length-sprint_items (cons x xs) = omega (arith, length-sprint_items xs)

-- `fill` keeps the positions with the template's values.
pub originals-fill :
    (try : Value → Value × Bool) (needed count : ℕ) (ss : List Slot)
    → originals (fill try needed count ss).0 ≡ originals ss
unfolding fill
originals-fill try needed count [] = refl
originals-fill try needed count (s ∷ ss) =
    ground (arith, originals-fill try needed count ss, originals-fill try needed (suc count) ss)

abbrev pub written_count : List Slot → ℕ
written_count [] = 0
written_count (s ∷ ss) = if s.written then suc (written_count ss) else written_count ss

abbrev pub stands : List String → String → Bool
stands seen key = any (λ (k : String). str_eq k key) seen

pub unseen_all :
    (seen keys : List String) → All (λ k. stands seen k ≡ true) keys → unseen seen keys ≡ 0
unfolding unseen
unseen_all seen [] h = refl
unseen_all seen (k ∷ ks) (p, h) = rw p (unseen_all seen ks h)

-- Each value stands among the printed ones.
abbrev pub Occurs : List String → Value → Type 0
Occurs keys v = 1 ≤ occurrences (sprint v) keys

Occurs-weaken : (k : String) (keys : List String) (v : Value) → Occurs keys v → Occurs (k ∷ keys) v
Occurs-weaken k keys v h = ground (arith, h)

pub items-Occurs : (e : Items) → All (Occurs (sprint_items e)) (items e)
unfolding sprint_items
items-Occurs nil = tt
items-Occurs (cons v vs) = (
  ground (arith, eq_refl (sprint v)),
  All-mono (Occurs-weaken (sprint v) (sprint_items vs)) (items vs) (items-Occurs vs),
)

module _ (try : Value → Value × Bool) where
  -- A position after the inner loop came to it.
  unfoldable pub visited : Slot → Slot
  visited s =
      if not s.written && (try s.original).1
      then record { original = s.original; current = (try s.original).0; written = true }
      else s

  pub fill-All :
      (P : Slot → Type 0) (step : (s : Slot) → P s → P (visited s)) (needed count : ℕ)
      (ss : List Slot)
      → All P ss
      → All P (fill try needed count ss).0
  unfolding fill visited
  fill-All P step needed count [] h = tt
  fill-All P step needed count (s ∷ ss) (p, h) =
      let count' : ℕ = if not s.written && (try s.original).1 then suc count else count in
      if_both (λ (r : List Slot × ℕ). All P r.0) (not s.written && count' == needed) (step s p, h)
        (step s p, fill-All P step needed count' ss h)

  -- Every match writes one position.
  pub fill-written_count :
      (needed count : ℕ) (ss : List Slot)
      → written_count (fill try needed count ss).0 + count
        ≡ written_count ss + (fill try needed count ss).1
  unfolding fill
  fill-written_count needed count [] = omega arith
  fill-written_count needed count (s ∷ ss) =
      ground (arith, fill-written_count needed count ss, fill-written_count needed (suc count) ss)

  pub fill_le :
      (needed count : ℕ) (ss : List Slot) → count < needed → (fill try needed count ss).1 ≤ needed
  unfolding fill
  fill_le needed count [] h = omega (arith, h)
  fill_le needed count (s ∷ ss) h =
      ground (arith, h, fill_le needed count ss, fill_le needed (suc count) ss)

  -- If matches are missing in the end, no position that is left matches.
  abbrev pub Unmatched : Slot → Type 0
  Unmatched s = s.written ≡ false → (try s.original).1 ≡ false

  visited-Unmatched : (s : Slot) → Unmatched (visited s)
  unfolding visited
  visited-Unmatched s = elim (Bool-cases (not s.written && (try s.original).1)) [
    | inl hit ↦ rw hit (λ h. absurd (ground (arith, h)))
    | inr miss ↦ rw miss (λ h. ground (arith, miss, h))
  ]

  pub fill-Unmatched :
      (needed count : ℕ) (ss : List Slot)
      → count < needed
      → (fill try needed count ss).1 < needed
      → All Unmatched (fill try needed count ss).0
  unfolding fill visited
  fill-Unmatched needed count [] h = λ k. tt
  fill-Unmatched needed count (s ∷ ss) h =
      let count' : ℕ = if not s.written && (try s.original).1 then suc count else count in
      if_either (λ (r : List Slot × ℕ). r.1 < needed → All Unmatched r.0)
        (not s.written && count' == needed) (λ stop k. absurd (ground (arith, stop, k)))
        (λ on k. (visited-Unmatched s, fill-Unmatched needed count' ss (ground (arith, h, on)) k))
