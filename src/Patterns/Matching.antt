-- ===== src/Patterns/Matching.antt =====
-- `Matches` keeps exactly the names that the patterns select.
use config_policy_controller.Prelude.{
  String, ◌≡◌, refl, Bool, true, false, not, ◌&&◌, ◌||◌, Option, none, some, List, [], ◌∷◌, All,
  any, keep, length, ◌==◌, arith, Bool-cases, inl, inr, if◌then◌else◌,
}
use config_policy_controller.Patterns.{answered, match_any, matches}

or_if : (a b : Bool) → (if a then a else b) ≡ (a || b)
or_if a b = ground arith

excluded :
    (n : String) (out : Bool) (r : List String × Option String) (ns : List String)
    → r ≡ (ns, none)
    → elim out as (λ x. List String × Option String) [ false ↦ (n ∷ r.0, r.1) | true ↦ r ]
      ≡ ((if true && not out then n ∷ ns else ns), none)
excluded n true r ns h = h
excluded n false r ns h = rw h refl

module _ (match_path : String → String → Option Bool) (m : String → String → Bool) where
  -- The patterns are well-formed, and `m` says which names they match.
  abbrev pub AreWellFormed : List String → Type 0
  AreWellFormed ps = All (λ (p : String). (n : String) → match_path p n ≡ some (m p n)) ps

  abbrev pub any_matches : List String → String → Bool
  any_matches ps n = any (λ (p : String). m p n) ps

  -- Without include patterns every name is included.
  abbrev pub is_selected : List String → List String → String → Bool
  is_selected includes excludes n =
      (length includes == 0 || any_matches includes n) && not (any_matches excludes n)

  no_patterns :
      (ps : List String) (n : String)
      → (if length ps == 0 then false else any_matches ps n) ≡ any_matches ps n
  no_patterns [] n = refl
  no_patterns (p ∷ ps) n = ground arith

  match_any_lem :
      (ps : List String) (n : String) (so_far : Bool)
      → AreWellFormed ps
      → match_any match_path ps n so_far
        ≡ answered (if length ps == 0 then so_far else any_matches ps n)
  unfolding match_any
  match_any_lem [] n so_far h = refl
  match_any_lem (p ∷ ps) n so_far (q, h) = elim (Bool-cases (m p n)) [
    | inl hit ↦ rw (q n, match_any) (rw hit (ground arith))
    | inr miss ↦
        rw (q n, match_any)
          (rw miss (rw (match_any_lem ps n false h) (rw (no_patterns ps n) (ground arith))))
  ]

  -- If all patterns are well-formed, `Matches` reports no error and returns, in their order, the
  -- names that an include pattern matches, or all of them without include patterns, less those that
  -- an exclude pattern matches.
  pub matches_lem :
      (ns includes excludes : List String)
      → AreWellFormed includes
      → AreWellFormed excludes
      → matches match_path ns includes excludes ≡ (keep (is_selected includes excludes) ns, none)
  unfolding matches
  matches_lem [] includes excludes i e = refl
  matches_lem (n ∷ ns) includes excludes i e =
      elim (Bool-cases (length includes == 0 || any_matches includes n)) [
        | inr out ↦
            rw (match_any_lem includes n (length includes == 0) i, matches)
              (rw (or_if (length includes == 0) (any_matches includes n))
                (rw out (matches_lem ns includes excludes i e)))
        | inl into ↦
            rw (match_any_lem includes n (length includes == 0) i, matches)
              (rw (or_if (length includes == 0) (any_matches includes n)) (
                rw into (
                  rw (match_any_lem excludes n false e) (
                    rw (no_patterns excludes n) (
                      excluded n (any_matches excludes n) _ _
                        (matches_lem ns includes excludes i e))))))
      ]
