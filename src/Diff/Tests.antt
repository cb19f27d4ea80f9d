-- ===== src/Diff/Tests.antt =====
-- Runs of the differences, and their theorems at a concrete differ.
use config_policy_controller.Prelude.{◌≤◌, String, ◌≡◌, refl, true, false, some}
use config_policy_controller.Json.{end}
use config_policy_controller.Diff.{Differ, record_diff_with_default, generate_diff}
use config_policy_controller.Diff.Lines.{lines, generate_diff_lem}

abbrev pub plain_differ : Differ
plain_differ = record {
  marshal = λ o. some "a: 1\n";
  unified_diff = λ a b from to. some "-a: 1\n+a: 2\n";
  get_name = λ o. "c";
  get_namespace = λ o. "n";
}

sensitive : record_diff_with_default "" (some ("", "Secret")) ≡ "Censored"
unfolding record_diff_with_default
sensitive = refl

shown : generate_diff plain_differ end end true ≡ some "-a: 1\n+a: 2\n"
unfolding generate_diff
shown = refl

generate_diff_lem_example :
    (cut : String) × (generate_diff plain_differ end end false ≡ some cut)
    × (lines cut ≤ 54)
    × (lines "-a: 1\n+a: 2\n" ≤ 53 → cut ≡ "-a: 1\n+a: 2\n")
generate_diff_lem_example = generate_diff_lem plain_differ end end "-a: 1\n+a: 2\n" shown
