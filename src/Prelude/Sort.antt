-- ===== src/Prelude/Sort.antt =====
-- Stable insertion sort by a key of type `String`, for the source's calls of the packages `sort`
-- and `slices`. (Go's sort is an insertion sort up to twelve elements; beyond that it may put
-- elements with equal keys in another order.)
use Prim.Native.Nat.{suc}
use mathlib.Core.Path.{◌≡◌, refl}
use mathlib.Core.Bool.{Bool, true, false}
use mathlib.Core.List.{List, [], ◌∷◌, map, Perm}
use mathlib.Core.List.Perm
use mathlib.Core.Logic.{inl, inr}
use native.Mathlib.Omega.{arith}
use config_policy_controller.Prelude.Tests.{if◌then◌else◌, Bool-cases}
use config_policy_controller.Prelude.Lists.{All, length}

module _ {ℓ} {A : Type ℓ} (less : A → A → Bool) where
  -- An element goes before the first one that it is not greater than.
  unfoldable pub insert_by : A → List A → List A
  insert_by x [] = x ∷ []
  insert_by x (y ∷ ys) = let later = y ∷ insert_by x ys in if less y x then later else x ∷ y ∷ ys

  unfoldable pub sort_by : List A → List A
  sort_by [] = []
  sort_by (x ∷ xs) = insert_by x (sort_by xs)

  pub length-insert_by : (x : A) (ys : List A) → length (insert_by x ys) ≡ suc (length ys)
  unfolding insert_by
  length-insert_by x [] = refl
  length-insert_by x (y ∷ ys) = ground (arith, length-insert_by x ys)

  pub length-sort_by : (xs : List A) → length (sort_by xs) ≡ length xs
  unfolding sort_by
  length-sort_by [] = refl
  length-sort_by (x ∷ xs) = omega (arith, length-insert_by x (sort_by xs), length-sort_by xs)

module _ {ℓ κ} {A : Type ℓ} (less : A → A → Bool) (P : A → Type κ) where
  pub All-insert_by : (x : A) (ys : List A) → P x → All P ys → All P (insert_by less x ys)
  unfolding insert_by
  All-insert_by x [] p h = (p, tt)
  All-insert_by x (y ∷ ys) p (q, h) =
      elim (less y x) as (λ b. All P (if b then y ∷ insert_by less x ys else x ∷ y ∷ ys)) [
        | true ↦ (q, All-insert_by x ys p h)
        | false ↦ (p, (q, h))
      ]

  -- What holds of every element still does when they are sorted.
  pub All-sort_by : (xs : List A) → All P xs → All P (sort_by less xs)
  unfolding sort_by
  All-sort_by [] h = tt
  All-sort_by (x ∷ xs) (p, h) = All-insert_by x (sort_by less xs) p (All-sort_by xs h)

module _ {ℓ κ} {A : Type ℓ} {B : Type κ} (f : A → B) (less : B → B → Bool) where
  insert_by-map :
      (x : A) (ys : List A)
      → insert_by less (f x) (map f ys) ≡ map f (insert_by (λ a b. less (f a) (f b)) x ys)
  unfolding insert_by
  insert_by-map x [] = refl
  insert_by-map x (y ∷ ys) = elim (Bool-cases (less (f y) (f x))) [
    | inl e ↦ rw e (rw (insert_by-map x ys))
    | inr e ↦ rw e
  ]

  -- Sorting the images by their keys is taking the images of what is sorted by the same keys.
  pub sort_by-map :
      (xs : List A) → sort_by less (map f xs) ≡ map f (sort_by (λ a b. less (f a) (f b)) xs)
  unfolding sort_by
  sort_by-map [] = refl
  sort_by-map (x ∷ xs) =
      rw (sort_by-map xs) (insert_by-map x (sort_by (λ a b. less (f a) (f b)) xs))

module _ {ℓ} {A : Type ℓ} (less : A → A → Bool) where
  insert_by-perm : (x : A) (ys : List A) → Perm (insert_by less x ys) (x ∷ ys)
  unfolding insert_by
  insert_by-perm x [] = Perm.refl (x ∷ [])
  insert_by-perm x (y ∷ ys) = elim (Bool-cases (less y x)) [
    | inl later ↦ rw later (Perm.trans (Perm.cons y (insert_by-perm x ys)) (Perm.swap x y ys))
    | inr here ↦ rw here (Perm.refl (x ∷ y ∷ ys))
  ]

  -- Sorting only changes the order.
  pub sort_by-perm : (xs : List A) → Perm (sort_by less xs) xs
  unfolding sort_by
  sort_by-perm [] = Perm.refl []
  sort_by-perm (x ∷ xs) =
      Perm.trans (insert_by-perm x (sort_by less xs)) (Perm.cons x (sort_by-perm xs))

module _ {ℓ} {A : Type ℓ} (less : A → A → Bool) where
  -- No element is less than the one before it.
  abbrev pub IsSorted : List A → Type 0
  IsSorted [] = Unit
  IsSorted (x ∷ []) = Unit
  IsSorted (x ∷ y ∷ ys) = (less y x ≡ false) × IsSorted (y ∷ ys)

  module _ (asym : (a b : A) → less a b ≡ true → less b a ≡ false) where
    insert_by-IsSorted : (x : A) (ys : List A) → IsSorted ys → IsSorted (insert_by less x ys)
    unfolding insert_by
    insert_by-IsSorted x [] h = tt
    insert_by-IsSorted x (y ∷ []) h = elim (Bool-cases (less y x)) [
      | inl later ↦ rw later (asym y x later, tt)
      | inr here ↦ rw here (here, tt)
    ]
    insert_by-IsSorted x (y ∷ z ∷ zs) h = elim (Bool-cases (less y x)) [
      | inr here ↦ rw here (here, h)
      | inl later ↦ rw later (behind later (less z x) (insert_by-IsSorted x (z ∷ zs) h.1))
    ]
      where
        behind :
            less y x ≡ true
            → (b : Bool) → IsSorted (if b then z ∷ insert_by less x zs else x ∷ z ∷ zs)
            → IsSorted (y ∷ (if b then z ∷ insert_by less x zs else x ∷ z ∷ zs))
        behind later true rest = (h.0, rest)
        behind later false rest = (asym y x later, rest)

    -- Sorting by an asymmetric order sorts.
    pub sort_by-IsSorted : (xs : List A) → IsSorted (sort_by less xs)
    unfolding sort_by
    sort_by-IsSorted [] = tt
    sort_by-IsSorted (x ∷ xs) = insert_by-IsSorted x (sort_by less xs) (sort_by-IsSorted xs)
