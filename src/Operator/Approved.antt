-- ===== src/Operator/Approved.antt =====
-- When the condition about the operator's version is compliant.
use config_policy_controller.Prelude.{
  ℕ, ◌≡◌, ◌↔◌, refl, sym, ap, Bool, false, Option, none, some, List, [], ◌∷◌, map, keep, last?, All,
  All-keep, Bool-cases, inl, inr, arith, eq_iff,
}
use config_policy_controller.Prelude.Text.{str_eq}
use config_policy_controller.Policy.{RelatedObject, is_must_not_have}
use config_policy_controller.Operator.{OperatorPolicy}
use config_policy_controller.Operator.Conds.{
  csv_condition_type, kind_of_text, cluster_service_version, missing_wanted_cond,
}
use config_policy_controller.Operator.Health.{
  Csv, allowed_csv_cond, disallowed_csv_cond, existing_csv_obj, disallowed_csv_obj,
}
use config_policy_controller.Operator.Status.{update_status}
use config_policy_controller.Operator.Response.{updated_to}
use config_policy_controller.Operator.Removal.{Remover}
use config_policy_controller.Operator.Lookup.{cond_at, IsUnique}
use config_policy_controller.Operator.Compliance.{HasStatus}
use config_policy_controller.Operator.Said.{update_status-HasStatus}
use config_policy_controller.Operator.Agreement.{false_no_true}
use config_policy_controller.Operator.Installed.{
  listed_of, installed, match_csvs_lem, IsAllowed, is_allowed_lem,
}
use config_policy_controller.Operator.Versions.{
  Subscription, CsvListing, csvs_listed, CsvResponse, is_relevant, or_missing, is_allowed,
  report_csv, wanted_csv, matched_csvs, handle_csv,
}

abbrev pub IsVersion : Csv → Type 0
IsVersion csv = csv.object.kind ≡ "ClusterServiceVersion"

abbrev AllVersion : Option Csv → Type 0
AllVersion none = Unit
AllVersion (some csv) = IsVersion csv

last?-AllVersion : (xs : List Csv) → All IsVersion xs → AllVersion (last? xs)
last?-AllVersion [] h = tt
last?-AllVersion (x ∷ []) h = h.0
last?-AllVersion (x ∷ y ∷ ys) h = last?-AllVersion (y ∷ ys) h.1

-- The version is there, installed with success and approved.
abbrev pub IsGood : OperatorPolicy → Subscription → Option Csv → Type 0
IsGood policy sub none = ⊥
IsGood policy sub (some csv) =
    (csv.phase ≡ "Succeeded") × IsAllowed sub policy.spec.versions csv.object.name

module _ {World : Type 0} (remover : Remover World) (policy : OperatorPolicy) (now : ℕ)
    (list : Subscription → World → World × CsvListing) (sub : Subscription)
    (unique : IsUnique policy.status.conditions) where
  abbrev Reported : CsvResponse → Type 0
  Reported r =
      (r.response.err ≡ none)
      × (HasStatus (cond_at r.response.policy.status.conditions csv_condition_type) "True"
          ↔ IsGood policy sub r.found_csv)

  report_csv-HasStatus :
      (related : List RelatedObject) (csv : Csv)
      → HasStatus
          (cond_at
            (report_csv remover policy now list sub related csv
              cluster_service_version).policy.status.conditions
            csv_condition_type)
          "True"
        ↔ IsGood policy sub (some csv)
  unfolding report_csv allowed_csv_cond disallowed_csv_cond
  report_csv-HasStatus related csv =
      let allowed = is_allowed_lem sub policy.spec.versions csv.object.name in
      let phase = eq_iff csv.phase "Succeeded" in
      elim (Bool-cases (is_allowed sub policy.spec.versions csv.object.name)) [
        | inl here ↦
            let told =
              update_status-HasStatus policy now (allowed_csv_cond cluster_service_version csv)
                related "True" unique refl in
            rw here (
              λ h.
                  let status = told.0 h in
                  (
                    elim (Bool-cases (str_eq csv.phase "Succeeded")) [
                      | inl same ↦ ground (arith, same, phase)
                      | inr other ↦ absurd (false_no_true (sym (rw other at status)))
                    ],
                    allowed.0 here,
                  ),
              λ (p, q). told.1 (rw (phase.1 p) refl),
            )
        | inr away ↦
            let told =
              update_status-HasStatus policy now (disallowed_csv_cond cluster_service_version csv)
                (disallowed_csv_obj csv ∷ []) "True" unique refl in
            rw away (
              λ h. absurd (false_no_true (sym (told.0 h))),
              λ (p, q). absurd (ground (arith, away, allowed.1 q)),
            )
      ]

  wanted_csv-Reported :
      (related : List RelatedObject) (o : Option Csv)
      → AllVersion o
      → (r : CsvResponse) × (wanted_csv remover policy now list sub related o ≡ some r)
        × (r.found_csv ≡ o)
        × Reported r
  unfolding wanted_csv missing_wanted_cond kind_of_text report_csv
  wanted_csv-Reported related none h =
      let told =
        update_status-HasStatus policy now (missing_wanted_cond cluster_service_version)
          (or_missing sub related) "True" unique refl in
      (
        record {
          found_csv = none;
          response = updated_to (
              update_status policy now (missing_wanted_cond cluster_service_version)
                (or_missing sub related));
        },
        refl,
        refl,
        (refl, (λ q. absurd (false_no_true (sym (told.0 q))), λ q. absurd q)),
      )
  wanted_csv-Reported related (some csv) kind = (
    record {
      found_csv = some csv;
      response = report_csv remover policy now list sub related csv cluster_service_version;
    },
    rw kind refl,
    refl,
    (refl, report_csv-HasStatus related csv),
  )

-- For a policy that does not call for the operator's absence and whose conditions have different
-- types: if the listing gives ClusterServiceVersions that can be read, `handleCSV` neither panics
-- nor fails, and returns the last listed one of the name that the subscription has installed, if
-- there is one. The condition about ClusterServiceVersions has then its compliant status exactly if
-- there is one, its phase is that of a success, and the policy lists no versions or its name is not
-- empty and is one of those or the one that the subscription starts with.
pub handle_csv-IsGood :
    {World : Type 0}
    → (remover : Remover World) (policy : OperatorPolicy) (now : ℕ)
      (list : Subscription → World → World × CsvListing) (sub : Subscription)
    → IsUnique policy.status.conditions
    → (w w' : World) (l : List (Csv × Bool)) → is_must_not_have policy.spec.compliance_type ≡ false
    → list sub w ≡ (w', csvs_listed (map listed_of l))
    → All IsVersion (map (λ x. x.0) l)
    → (r : CsvResponse) × (handle_csv remover policy now list (some sub) w ≡ (w', some r))
      × (r.found_csv ≡ installed sub (map (λ x. x.0) l))
      × ((r.response.err ≡ none)
          × (HasStatus (cond_at r.response.policy.status.conditions csv_condition_type) "True"
              ↔ IsGood policy sub r.found_csv))
unfolding handle_csv matched_csvs
handle_csv-IsGood remover policy now list sub unique w w' l wanted given kinds =
    let csvs : List Csv = map (λ x. x.0) l in
    let counted : List Csv = keep (λ csv. is_relevant sub csv.object.name) csvs in
    let kind =
      last?-AllVersion (keep (λ csv. str_eq sub.installed_csv csv.object.name) csvs)
        (All-keep IsVersion (λ csv. str_eq sub.installed_csv csv.object.name) csvs kinds) in
    let (r, reported, found, good) =
      wanted_csv-Reported remover policy now list sub unique (map existing_csv_obj counted)
        (installed sub csvs) kind in
    (r, rw given (rw (match_csvs_lem sub l) (rw wanted (ap (λ x. (w', x)) reported))), found, good)
