-- ===== src/Diff/Lines.antt =====
-- How many lines the recorded differences have.
use Prim.Native.Nat.{◌/◌, ◌%◌}
use Prim.Native.Char.{Char, code}
use Prim.Native.String
use config_policy_controller.Prelude.{
  ℕ, zero, suc, ◌+◌, ◌≤◌, ◌∙◌, String, ◌≡◌, refl, true, false, ◌&&◌, Option, none, some, List, [],
  ◌∷◌, length, max, All, take, ltb, ◌==◌, length-take-le, if_both, if_either, arith, if◌then◌else◌,
}
use config_policy_controller.Prelude.Text.{◌<>◌, join, digit, digits, decimal}
use config_policy_controller.Json.{Fields}
use config_policy_controller.Diff.{
  Differ, first_line_with, split_lines, max_lines, truncated, unified, generate_diff,
}

abbrev pub lines : String → ℕ
lines s = length (split_lines s)

abbrev IsOneLine : String → Type 0
IsOneLine s = lines s ≡ 1

length-first_line_with :
    (c : String) (ls : List String) → 1 ≤ length ls → length (first_line_with c ls) ≡ length ls
length-first_line_with c [] some' = absurd (omega (arith, some'))
length-first_line_with c (l ∷ ls) some' = refl

lines-cons :
    (c : Char) (s : String)
    → 1 ≤ lines s
    → lines (String.◌∷◌ c s) ≡ (if code c == 10 then suc (lines s) else lines s)
lines-cons c s some' =
    if_either (λ x. length x ≡ (if code c == 10 then suc (lines s) else lines s)) (code c == 10)
      (λ newline. rw newline refl)
      (λ other. rw other (length-first_line_with (String.◌∷◌ c "") (split_lines s) some'))

lines-pos : (s : String) → 1 ≤ lines s
lines-pos String.[] = omega arith
lines-pos (String.◌∷◌ c s) =
    rw (lines-cons c s (lines-pos s))
      (if_both (λ x. 1 ≤ x) (code c == 10) (omega arith) (lines-pos s))

pub lines-append : (s t : String) → suc (lines (s <> t)) ≡ lines s + lines t
lines-append String.[] t = rw (String.append.nil t) (omega arith)
lines-append (String.◌∷◌ c s) t =
    let ih = lines-append s t in
    rw (String.append.cons c s t) (
      rw (lines-cons c (s <> t) (lines-pos (s <> t))) (
        rw (lines-cons c s (lines-pos s)) (
          if_either (λ (x : ℕ). suc x ≡ (if code c == 10 then suc (lines s) else lines s) + lines t)
            (code c == 10) (λ newline. rw newline (omega (arith, ih))) (λ other. rw other ih))))

lines-one : (s t : String) → IsOneLine s → lines (s <> t) ≡ lines t
lines-one s t one = omega (arith, one, lines-append s t)

split_lines-IsOneLine : (s : String) → All IsOneLine (split_lines s)
split_lines-IsOneLine String.[] = (refl, tt)
split_lines-IsOneLine (String.◌∷◌ c s) =
    let rest = split_lines-IsOneLine s in
    if_either (All IsOneLine) (code c == 10) (λ newline. (refl, rest))
      (λ other. extended (split_lines s) other rest)
  where
    extended :
        (ls : List String)
        → code c == 10 ≡ false
        → All IsOneLine ls
        → All IsOneLine (first_line_with (String.◌∷◌ c "") ls)
    extended [] other a = (rw other refl, tt)
    extended (l ∷ ls) other (a, b) = (
      (let single : IsOneLine (String.◌∷◌ c "") = rw other refl in
          omega (arith, a, lines-one (String.◌∷◌ c "") l single)),
      b,
    )

All-take : (n : ℕ) (ls : List String) → All IsOneLine ls → All IsOneLine (take n ls)
All-take zero ls a = tt
All-take (suc n) [] a = tt
All-take (suc n) (l ∷ ls) (a, b) = (a, All-take n ls b)

-- Joining single lines.
lines-join : (ls : List String) → All IsOneLine ls → lines (join "\n" ls) ≤ max 1 (length ls)
lines-join [] a = omega arith
lines-join (l ∷ []) (a, b) = omega (arith, a)
lines-join (l ∷ m ∷ ls) (a, b) =
    let rest = lines-join (m ∷ ls) b in
    let tail = join "\n" (m ∷ ls) in
    let newline = lines-append "\n" tail in
    let whole = lines-append l ("\n" <> tail) in omega (arith, a, rest, newline, whole)

digit-IsOneLine : (n : ℕ) → IsOneLine (digit n)
digit-IsOneLine n = if_both IsOneLine (n == 0) refl (
    if_both IsOneLine (n == 1) refl (
      if_both IsOneLine (n == 2) refl (
        if_both IsOneLine (n == 3) refl (
          if_both IsOneLine (n == 4) refl (
            if_both IsOneLine (n == 5) refl (
              if_both IsOneLine (n == 6) refl
                (if_both IsOneLine (n == 7) refl (if_both IsOneLine (n == 8) refl refl))))))))

lines-digits : (rounds n : ℕ) (after : String) → lines (digits rounds n after) ≡ lines after
lines-digits zero n after = lines-one (digit n) after (digit-IsOneLine n)
lines-digits (suc rounds) n after =
    let one = lines-one (digit n) after (digit-IsOneLine n) in
    let shorter = lines-digits rounds (n / 10) (digit (n % 10) <> after) in
    let more = lines-one (digit (n % 10)) after (digit-IsOneLine (n % 10)) in
    elim (ltb n 10)
      as (λ b.
        lines (elim b [
          | true ↦ digit n <> after
          | false ↦ digits rounds (n / 10) (digit (n % 10) <> after)
        ])
        ≡ lines after) [ true ↦ one | false ↦ shorter ∙ more ]

decimal-IsOneLine : (n : ℕ) → IsOneLine (decimal n)
decimal-IsOneLine n = lines-digits n n ""

module _ (differ : Differ) where
  -- The header of a truncated diff is one line more.
  lines-truncated :
      (diff : String)
      → (lines (truncated differ diff false) ≤ suc max_lines)
        × (lines diff ≤ max_lines → truncated differ diff false ≡ diff)
  unfolding truncated
  lines-truncated diff =
      let kept = take max_lines (split_lines diff) in
      let joined = join "\n" kept in
      let short : lines joined ≤ max 1 (length kept) =
        lines-join kept (All-take max_lines (split_lines diff) (split_lines-IsOneLine diff)) in
      let few = length-take-le max_lines (split_lines diff) in
      let number = decimal (lines diff) in
      let header =
        lines-one "# Truncated: showing 50/" (number <> (" diff lines:\n" <> joined)) refl in
      let count = lines-one number (" diff lines:\n" <> joined) (decimal-IsOneLine (lines diff)) in
      let newline = lines-append " diff lines:\n" joined in
      if_either (λ (x : String). (lines x ≤ suc max_lines) × (lines diff ≤ max_lines → x ≡ diff))
        (ltb max_lines (lines diff) && true)
        (λ long. (omega (arith, header, count, newline, short, few), λ fits. absurd (ground arith)))
        (λ fits. (ground arith, λ q. refl))

  -- A difference that `generateDiff` returns in full is also returned where long ones are cut: it
  -- has at most 54 lines then, and it is the same one if it has at most 53.
  pub generate_diff_lem :
      (existing_obj updated_obj : Fields) (full : String)
      → generate_diff differ existing_obj updated_obj true ≡ some full
      → (cut : String) × (generate_diff differ existing_obj updated_obj false ≡ some cut)
        × (lines cut ≤ suc max_lines)
        × (lines full ≤ max_lines → cut ≡ full)
  unfolding generate_diff
  generate_diff_lem existing_obj updated_obj full e =
      go (unified differ existing_obj updated_obj) refl
    where
      go :
          (o : Option String)
          → unified differ existing_obj updated_obj ≡ o
          → (cut : String) × (generate_diff differ existing_obj updated_obj false ≡ some cut)
            × (lines cut ≤ suc max_lines)
            × (lines full ≤ max_lines → cut ≡ full)
      go none q = absurd (ground (arith, rw q at e))
      go (some diff) q =
          let short = lines-truncated diff in
          let whole : diff ≡ full = ground (arith, rw (q, truncated) at e) in
          let (few, same) = rw whole at short in
          rw (q, whole) (truncated differ full false, refl, few, same)
