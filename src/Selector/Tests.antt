-- ===== src/Selector/Tests.antt =====
-- Runs of the namespace selection, and its theorems at concrete caches.
use config_policy_controller.Prelude.Assoc.{find}
use config_policy_controller.Prelude.{
  String, ◌≡◌, refl, Bool, true, false, not, Option, none, some, List, [], ◌∷◌, keep, if◌then◌else◌,
}
use config_policy_controller.Prelude.Text.{str_eq}
use config_policy_controller.Prelude.Sort.{sort_by, insert_by}
use config_policy_controller.Policy.{Target}
use config_policy_controller.Patterns.{matches}
use config_policy_controller.Selector.{
  get_key, Selection, Selector, has_update, World, ok, filter, selection_of, get, reconcile,
}
use config_policy_controller.Selector.Cache.{IsCache}
use config_policy_controller.Selector.Reachable.{empty, Reachable, started, got, Reachable-IsCache}
use config_policy_controller.Selector.Refresh.{IsCurrent, reconcile-IsCurrent, reconcile-forgets}
use config_policy_controller.Selector.Reading.{get-filter}

-- Patterns match themselves, and "[" is malformed.
abbrev exact : String → String → Option Bool
exact p n = if str_eq p "[" then none else some (str_eq p n)

-- Namespaces with Boolean labels, of which a selector is a copy.
abbrev world_of : List (String × Bool) → World Bool Bool
world_of nss = record {
  print_labels = λ l. if l then "on" else "off";
  print_expressions = λ l. "[]";
  parse_selector = λ l. ok (λ b. if l then b else not b);
  match_path = exact;
  has_channel = true;
  list = λ f. ok (keep (λ (x : String × Bool). f x.1) nss);
}

abbrev two : List (String × Bool)
two = ("b", true) ∷ ("a", true) ∷ []

abbrev labelled : Target Bool
labelled = record { label_selector = some true; includes = []; excludes = [] }

abbrev malformed : Target Bool
malformed = record { label_selector = none; includes = "[" ∷ []; excludes = [] }

-- A policy read the selection of its target before there were namespaces.
abbrev early : Target Bool → Selector Bool
early t = record {
  selections =
      ("n/m", record { target = t; namespaces = some []; has_update = false; err = none }) ∷ [];
  sent = ("n", "m") ∷ [];
}

starts_labelled : (get (world_of []) empty "n" "m" labelled).0 ≡ early labelled
unfolding get get_key filter matches sort_by
starts_labelled = refl

starts_malformed : (get (world_of []) empty "n" "m" malformed).0 ≡ early malformed
unfolding get get_key filter matches sort_by
starts_malformed = refl

reached :
    (t : Target Bool)
    → (get (world_of []) empty "n" "m" t).0 ≡ early t
    → Reachable Bool Bool (early t)
reached t h = rw (← h) (got (world_of []) "n" "m" t started)

both_selected : filter (world_of two) two labelled ≡ (some ("a" ∷ "b" ∷ []), none)
unfolding filter matches sort_by insert_by
both_selected = refl

bad_pattern :
    filter (world_of two) two malformed
    ≡ (some [], some "error parsing 'include' pattern '[': syntax error in pattern")
unfolding filter matches sort_by insert_by
bad_pattern = refl

Reachable-IsCache_example : IsCache (early labelled).selections
Reachable-IsCache_example = Reachable-IsCache (early labelled) (reached labelled starts_labelled)

reconcile-IsCurrent_example :
    (s : Selection Bool) × (find "n/m" (reconcile (world_of two) (early labelled)).0.selections
      ≡ some s)
    × IsCurrent
        (world_of two)
        two
        (record { target = labelled; namespaces = some []; has_update = false; err = none })
        (some ("a" ∷ "b" ∷ []))
        s
reconcile-IsCurrent_example =
    reconcile-IsCurrent (world_of two) two (early labelled) "n/m"
      (record { target = labelled; namespaces = some []; has_update = false; err = none })
      (some ("a" ∷ "b" ∷ [])) (reached labelled starts_labelled) refl refl both_selected

keyed :
    (t : Target Bool)
    → find (get_key "n" "m") (early t).selections
      ≡ some (record { target = t; namespaces = some []; has_update = false; err = none })
unfolding get_key
keyed t = refl

reconcile-forgets_example :
    (has_update (reconcile (world_of two) (early malformed)).0 "n" "m" ≡ true)
    × (has_update
          (reconcile (world_of two) (reconcile (world_of two) (early malformed)).0).0
          "n"
          "m"
        ≡ false)
reconcile-forgets_example =
    reconcile-forgets (world_of two) two (early malformed) "n" "m"
      "error parsing 'include' pattern '[': syntax error in pattern"
      (record { target = malformed; namespaces = some []; has_update = false; err = none })
      (some []) (reached malformed starts_malformed) refl (keyed malformed) refl bad_pattern

get-filter_example :
    ((get (world_of two) empty "n" "m" labelled).1 ≡ filter (world_of two) two labelled)
    × (find (get_key "n" "m") (get (world_of two) empty "n" "m" labelled).0.selections
        ≡ some (selection_of (world_of two) labelled false (filter (world_of two) two labelled)))
get-filter_example =
    get-filter (world_of two) two empty "n" "m" labelled (λ b. if true then b else not b)
      (λ f. refl) refl refl
