-- ===== src/Prelude/Text.antt =====
-- Texts: equality, the byte order of Go's `<` on strings, ASCII case folding, and substrings.
use Prim.Native.Nat.{ℕ, zero, suc, ◌+◌, ◌/◌, ◌%◌}
use Prim.Native.Char.{code}
use Prim.Native.String
use Prim.Native.String.{String}
use mathlib.Core.Bool.{Bool, true, false, ◌&&◌}
use mathlib.Core.List.{List, [], ◌∷◌, map}
use text.Mathlib.Text
use config_policy_controller.Prelude.Tests.{leb, ltb, ◌==◌, if◌then◌else◌}

abbrev pub str_eq : String → String → Bool
str_eq s t = Text.◌==◌ s t

infixr 65 ◌<>◌
-- Concatenation of texts, Go's `+` on strings.
abbrev pub ◌<>◌ : String → String → String
s <> t = String.◌++◌ s t

-- The order of code points, which for UTF-8 is the order of the bytes.
abbrev pub str_ltb : String → String → Bool
str_ltb s t = Text.is_lt (String.compare s t)

abbrev pub codes : String → List ℕ
codes String.[] = []
codes (String.◌∷◌ c s) = code c ∷ codes s

abbrev pub has_prefix : String → String → Bool
has_prefix s p = Text.starts_with s p

-- `strings.Contains`: the first position of `t` in `s`, if any, is no later than the end of `s`.
abbrev pub contains : String → String → Bool
contains s t = leb (String.find s t) (String.len s)

-- Unicode's simple folding as far as it reaches the ASCII letters: two letters beyond ASCII,
-- U+017F and U+212A, fold to "s" and "k".
abbrev pub fold_code : ℕ → ℕ
fold_code c =
    if leb b'A' c && leb c b'Z'
    then c + 32
    else if c == 0x17f
    then b's'
    else if c == 0x212a
    then b'k'
    else c

abbrev pub same_codes : List ℕ → List ℕ → Bool
same_codes [] [] = true
same_codes (a ∷ as') (b ∷ bs) = a == b && same_codes as' bs
same_codes _ _ = false

-- `strings.EqualFold(s, t)` where one of the two is ASCII.
abbrev pub equal_fold : String → String → Bool
equal_fold s t = same_codes (map fold_code (codes s)) (map fold_code (codes t))

-- `strings.Join`
abbrev pub join : String → List String → String
join sep [] = ""
join sep (x ∷ []) = x
join sep (x ∷ y ∷ xs) = x <> sep <> join sep (y ∷ xs)

abbrev pub digit : ℕ → String
digit n =
    if n == 0
    then "0"
    else if n == 1
    then "1"
    else if n == 2
    then "2"
    else if n == 3
    then "3"
    else if n == 4
    then "4"
    else if n == 5
    then "5"
    else if n == 6
    then "6"
    else if n == 7
    then "7"
    else if n == 8
    then "8"
    else "9"

-- The digits of a number, in front of those already printed; as many rounds as the number says
-- are enough, as each takes a digit away.
abbrev pub digits : ℕ → ℕ → String → String
digits zero n after = digit n <> after
digits (suc rounds) n after = elim (ltb n 10) [
  | true ↦ digit n <> after
  | false ↦ digits rounds (n / 10) (digit (n % 10) <> after)
]

-- `%d` for a natural number.
abbrev pub decimal : ℕ → String
decimal n = digits n n ""
