-- ===== src/Prelude/Order.antt =====
-- The order of texts is asymmetric.
use Prim.Native.Nat.compare as compare_ℕ
use Prim.Native.Nat.{ℕ, zero, suc, Ordering, compare as compare_ℕ}
use Prim.Native.Char.{code}
use Prim.Native.String.compare
use Prim.Native.String.{String, [], ◌∷◌, compare, then}
use mathlib.Core.Path.{◌≡◌, refl, sym, ap, ◌∙◌}
use mathlib.Core.Bool.{true, false}
use native.Mathlib.Omega.{arith}
use text.Mathlib.Text
use config_policy_controller.Prelude.Text.{str_ltb}

abbrev flip : Ordering → Ordering
flip Ordering.lt = Ordering.gt
flip Ordering.eq = Ordering.eq
flip Ordering.gt = Ordering.lt

compare_ℕ-flip : (m n : ℕ) → compare_ℕ m n ≡ flip (compare_ℕ n m)
compare_ℕ-flip zero zero = compare_ℕ.zero-zero ∙ sym (ap flip compare_ℕ.zero-zero)
compare_ℕ-flip zero (suc n) = compare_ℕ.zero-suc n ∙ sym (ap flip (compare_ℕ.suc-zero n))
compare_ℕ-flip (suc m) zero = compare_ℕ.suc-zero m ∙ sym (ap flip (compare_ℕ.zero-suc m))
compare_ℕ-flip (suc m) (suc n) =
    compare_ℕ.suc-suc m n ∙ compare_ℕ-flip m n ∙ sym (ap flip (compare_ℕ.suc-suc n m))

then-flip : (x y : Ordering) → flip (then x y) ≡ then (flip x) (flip y)
then-flip Ordering.lt y = refl
then-flip Ordering.eq y = refl
then-flip Ordering.gt y = refl

compare-flip : (s t : String) → compare s t ≡ flip (compare t s)
compare-flip [] [] = compare.nil-nil ∙ sym (ap flip compare.nil-nil)
compare-flip [] (d ∷ t) = compare.nil-cons d t ∙ sym (ap flip (compare.cons-nil d t))
compare-flip (c ∷ s) [] = compare.cons-nil c s ∙ sym (ap flip (compare.nil-cons c s))
compare-flip (c ∷ s) (d ∷ t) =
    compare.cons-cons c d s t
    ∙ ap (λ x. then x (compare s t)) (compare_ℕ-flip (code c) (code d))
    ∙ ap (λ y. then (flip (compare_ℕ (code d) (code c))) y) (compare-flip s t)
    ∙ sym (then-flip (compare_ℕ (code d) (code c)) (compare t s))
    ∙ sym (ap flip (compare.cons-cons d c t s))

-- A text that comes before another one does not come after it.
pub str_ltb_asym : (s t : String) → str_ltb s t ≡ true → str_ltb t s ≡ false
str_ltb_asym s t h = ap (λ x. Text.is_lt x) (compare-flip t s) ∙ go (compare s t) h
  where
    go : (x : Ordering) → Text.is_lt x ≡ true → Text.is_lt (flip x) ≡ false
    go Ordering.lt h = refl
    go Ordering.eq h = absurd (ground (arith, h))
    go Ordering.gt h = absurd (ground (arith, h))
