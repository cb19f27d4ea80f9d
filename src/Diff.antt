-- ===== src/Diff.antt =====
-- The differences that the status records: `RecordDiffWithDefault` of api/v1/configurationpolicy_types.go,
-- `handleDiff` of controllers/configurationpolicy_controller.go and `generateDiff` of
-- controllers/configurationpolicy_utils.go. The YAML encoder, the line differ and the decoding of
-- the template's kind are parameters.
pub mod Lines
pub mod Tests
use Prim.Native.Char.{code}
use Prim.Native.String
use mathlib.Core.Option
use config_policy_controller.Prelude.{
  ℕ, zero, suc, ◌+◌, String, Bool, true, false, not, ◌&&◌, ◌||◌, Option, none, some, List, [], ◌∷◌,
  length, take, ltb, ◌==◌, if◌then◌else◌,
}
use config_policy_controller.Prelude.Text.{str_eq, ◌<>◌, join, decimal}
use config_policy_controller.Json.{Fields}

-- A value of the field `recordDiff`.
abbrev pub RecordDiff : Type 0
RecordDiff = String

-- The kinds whose objects hold sensitive data, by their group and kind.
unfoldable pub is_sensitive : String → String → Bool
is_sensitive group kind =
    if str_eq group ""
    then str_eq kind "ConfigMap" || str_eq kind "Secret"
    else if str_eq group "oauth.openshift.io"
    then str_eq kind "OAuthAccessToken" || str_eq kind "OAuthAuthorizeTokens"
    else if str_eq group "route.openshift.io"
    then str_eq kind "Route"
    else false

-- `RecordDiffWithDefault`, for the group and the kind of the template's object if it can be decoded.
unfoldable pub record_diff_with_default : RecordDiff → Option (String × String) → RecordDiff
unfolding is_sensitive
record_diff_with_default record_diff gvk =
    if not (str_eq record_diff "") then record_diff else elim gvk [
      | none ↦ record_diff
      | some (group, kind) ↦ if is_sensitive group kind then "Censored" else "InStatus"
    ]

-- The first line, and the lines after it: a character is put before the first one.
abbrev pub first_line_with : String → List String → List String
first_line_with c [] = c ∷ []
first_line_with c (l ∷ ls) = (c <> l) ∷ ls

-- `strings.Split(s, "\n")`
abbrev pub split_lines : String → List String
split_lines String.[] = "" ∷ []
split_lines (String.◌∷◌ c s) =
    let rest = split_lines s in
    if code c == 10 then "" ∷ rest else first_line_with (String.◌∷◌ c "") rest

-- The YAML encoding of an object, and the unified diff of two
-- texts with the names of their sides; `none` is an error.
pub record Differ : Type 0 where
  pub marshal : Fields → Option String
  pub unified_diff : String → String → String → String → Option String
  pub get_name : Fields → String
  pub get_namespace : Fields → String

-- The most lines of a diff that is recorded: 50, and 3 for the header.
abbrev pub max_lines : ℕ
max_lines = 53

-- The text for a diff that is not shown.
abbrev pub redacted : String
redacted =
    "# The difference is redacted because it contains sensitive data. To override, the spec[\"object-templates\"][].recordDiff field must be set to \"InStatus\" for the difference to be recorded in the policy status. Consider existing access to the ConfigurationPolicy objects and the etcd encryption configuration before you proceed with an override."

module _ (differ : Differ) where
  unfoldable pub truncated : String → Bool → String
  truncated diff full_diffs =
      let lines = split_lines diff in
      if ltb max_lines (length lines) && not full_diffs
      then "# Truncated: showing 50/"
        <> (decimal (length lines) <> (" diff lines:\n" <> join "\n" (take max_lines lines)))
      else diff

  -- The unified diff of the two encodings, named after the existing object.
  unfoldable pub unified : Fields → Fields → Option String
  unified existing_obj updated_obj =
      let object_name = differ.get_name existing_obj in
      let name =
        if not (str_eq (differ.get_namespace existing_obj) "")
        then differ.get_namespace existing_obj <> ("/" <> object_name)
        else object_name in
      elim (differ.marshal existing_obj) [
        | none ↦ none
        | some existing_yaml ↦ elim (differ.marshal updated_obj) [
          | none ↦ none
          | some updated_yaml ↦
              differ.unified_diff existing_yaml (name <> " : existing") updated_yaml
                (name <> " : updated")
        ]
      ]

  -- `generateDiff`
  unfoldable pub generate_diff : Fields → Fields → Bool → Option String
  unfolding truncated unified
  generate_diff existing_obj updated_obj full_diffs =
      Option.map (λ diff. truncated diff full_diffs) (unified existing_obj updated_obj)

  -- `handleDiff`; what it logs is left out.
  unfoldable pub handle_diff : RecordDiff → Fields → Fields → Bool → String
  unfolding generate_diff
  handle_diff record_diff existing_obj merged_obj full_diffs =
      let computed_diff : Option String =
        if not (str_eq record_diff "None") && not (str_eq record_diff "Censored")
        then generate_diff existing_obj merged_obj full_diffs
        else some "" in
      elim computed_diff [
        | none ↦ ""
        | some diff ↦
            if str_eq record_diff "None" || str_eq record_diff "Log"
            then ""
            else if str_eq record_diff "InStatus"
            then diff
            else if str_eq record_diff "Censored"
            then redacted
            else ""
      ]
