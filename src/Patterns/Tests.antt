-- ===== src/Patterns/Tests.antt =====
-- A run of the pattern matching, with patterns that match themselves.
use config_policy_controller.Prelude.{
  String, ◌≡◌, refl, Bool, Option, none, some, [], ◌∷◌, keep, if◌then◌else◌,
}
use config_policy_controller.Prelude.Text.{str_eq}
use config_policy_controller.Patterns.{matches}
use config_policy_controller.Patterns.Matching.{is_selected, matches_lem}

abbrev exact : String → String → Option Bool
exact p n = if str_eq p "[" then none else some (str_eq p n)

abbrev spelled : String → String → Bool
spelled p n = str_eq p n

stops_at_malformed :
    matches exact ("a" ∷ "b" ∷ []) ("a" ∷ "[" ∷ []) []
    ≡ ("a" ∷ [], some "error parsing 'include' pattern '[': syntax error in pattern")
unfolding matches
stops_at_malformed = refl

matches_lem_example :
    matches exact ("a" ∷ "b" ∷ "c" ∷ []) ("a" ∷ "c" ∷ []) ("c" ∷ [])
    ≡ (keep (is_selected exact spelled ("a" ∷ "c" ∷ []) ("c" ∷ [])) ("a" ∷ "b" ∷ "c" ∷ []), none)
matches_lem_example =
    matches_lem exact spelled ("a" ∷ "b" ∷ "c" ∷ []) ("a" ∷ "c" ∷ []) ("c" ∷ [])
      (λ n. refl, (λ n. refl, tt)) (λ n. refl, tt)
