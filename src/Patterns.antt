-- ===== src/Patterns.antt =====
-- `Matches` of pkg/common/pattern_util.go, which filters names by include and exclude patterns. The
-- matching of one pattern, `filepath.Match`, is a parameter: `none` is its only error, for a
-- malformed pattern.
pub mod Matching
pub mod Tests
use config_policy_controller.Prelude.{
  String, Bool, true, false, Option, none, some, List, [], ◌∷◌, length, ◌==◌,
}
use config_policy_controller.Prelude.Text.{◌<>◌}

-- How a loop over patterns ends: at a malformed pattern, or with the last answer.
pub data Hit : Type 0 where
  malformed : String → Hit
  answered : Bool → Hit

module _ (match_path : String → String → Option Bool) where
  -- The inner loops of `Matches`, from the value that the variable has so far.
  unfoldable pub match_any : List String → String → Bool → Hit
  match_any [] namespace so_far = answered so_far
  match_any (p ∷ ps) namespace so_far = elim (match_path p namespace) [
    | none ↦ malformed p
    | some true ↦ answered true
    | some false ↦ match_any ps namespace false
  ]

  -- `Matches`: the selected names, and the error if there is one.
  unfoldable pub matches : List String → List String → List String → List String × Option String
  unfolding match_any
  matches [] includes excludes = ([], none)
  matches (n ∷ ns) includes excludes =
      let rest = matches ns includes excludes in
      elim (match_any includes n (length includes == 0)) [
        | malformed p ↦
            ([], some ("error parsing 'include' pattern '" <> p <> "': syntax error in pattern"))
        | answered false ↦ rest
        | answered true ↦ elim (match_any excludes n false) [
          | malformed p ↦
              ([], some ("error parsing 'exclude' pattern '" <> p <> "': syntax error in pattern"))
          | answered true ↦ rest
          | answered false ↦ (n ∷ rest.0, rest.1)
        ]
      ]
