-- ===== src/Prelude/Assoc.antt =====
-- Maps from texts as lists of entries: Go's maps and `sync.Map`.
use Prim.Native.String.{String}
use mathlib.Core.Path.{◌≡◌, refl}
use mathlib.Core.Option.{Option, none, some}
use mathlib.Core.List.{List, [], ◌∷◌}
use native.Mathlib.Omega.{arith}
use text.Mathlib.TextEquality.{eq_iff}
use config_policy_controller.Prelude.Tests.{if◌then◌else◌}
use config_policy_controller.Prelude.Text.{str_eq}

module _ {ℓ} {A : Type ℓ} where
  abbrev pub find : String → List (String × A) → Option A
  find key [] = none
  find key ((k, s) ∷ rest) = let later = find key rest in if str_eq k key then some s else later

  abbrev pub put : String → A → List (String × A) → List (String × A)
  put key v [] = (key, v) ∷ []
  put key v ((k, s) ∷ rest) =
      let later = put key v rest in if str_eq k key then (k, v) ∷ rest else (k, s) ∷ later

  abbrev pub remove : String → List (String × A) → List (String × A)
  remove key [] = []
  remove key ((k, s) ∷ rest) =
      let later = remove key rest in if str_eq k key then later else (k, s) ∷ later

  pub find-put :
      (k key : String) (v : A) (xs : List (String × A))
      → find k (put key v xs) ≡ (if str_eq key k then some v else find k xs)
  find-put k key v [] = refl
  find-put k key v ((j, t) ∷ xs) =
      ground (arith, eq_iff key k, eq_iff j key, eq_iff j k, find-put k key v xs)

  pub find-remove :
      (k key : String) (xs : List (String × A))
      → find k (remove key xs) ≡ (if str_eq key k then none else find k xs)
  find-remove k key [] = ground arith
  find-remove k key ((j, t) ∷ xs) =
      ground (arith, eq_iff key k, eq_iff j key, eq_iff j k, find-remove k key xs)
