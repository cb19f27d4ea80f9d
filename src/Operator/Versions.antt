-- ===== src/Operator/Versions.antt =====
-- The handling of the operator's ClusterServiceVersions: `handleCSV` of
-- controllers/operatorpolicy_controller.go. The listing and the conversion to the Go type are
-- parameters.
use config_policy_controller.Prelude.{
  ℕ, String, Bool, true, not, ◌||◌, Option, none, some, List, [], ◌∷◌, ◌++◌, map, keep, any,
  if◌then◌else◌,
}
use mathlib.Core.Option
use config_policy_controller.Prelude.Text.{str_eq, ◌<>◌}
use config_policy_controller.Policy.{RelatedObject, is_must_not_have}
use config_policy_controller.Operator.{OperatorPolicy}
use config_policy_controller.Operator.Conds.{
  Kind, kind_of_text, cluster_service_version, missing_wanted_cond,
}
use config_policy_controller.Operator.Health.{
  Csv, allowed_csv_cond, disallowed_csv_cond, no_csv_cond, missing_csv_obj, existing_csv_obj,
  disallowed_csv_obj, no_existing_csv_obj,
}
use config_policy_controller.Operator.Status.{update_status}
use config_policy_controller.Operator.Response.{Response, updated_to, failing}
use config_policy_controller.Operator.Removal.{Found, Remover, mustnothave_csv}

-- What is read of a Subscription: the version that it has installed, and the one that it starts with.
pub record Subscription : Type 0 where
  pub name : String
  pub namespace : String
  pub installed_csv : String
  pub starting_csv : String

-- What the conversion of a listed object to the Go type gives.
pub data Conversion : Type 0 where
  unconverted : String → Conversion
  converted : Csv → Conversion

pub record ListedCsv : Type 0 where
  pub found : Found
  pub conversion : Conversion

pub data CsvListing : Type 0 where
  csv_listing_failed : String → CsvListing
  csvs_listed : List ListedCsv → CsvListing

-- What the loop finds: the related objects, and the installed version.
pub record MatchedCsvs : Type 0 where
  pub related : List RelatedObject
  pub found_csv : Option Csv

pub data Matching : Type 0 where
  matched : MatchedCsvs → Matching
  unmatched : String → Matching

-- What `handleCSV` returns: the installed version, and what every handler returns.
pub record CsvResponse : Type 0 where
  pub found_csv : Option Csv
  pub response : Response

module _ (sub : Subscription) where
  -- Every listed version counts while the subscription has none installed.
  abbrev pub is_relevant : String → Bool
  is_relevant name = str_eq sub.installed_csv "" || str_eq sub.installed_csv name

  abbrev pub found_or : Option Csv → String → Csv → Option Csv
  found_or (some later) name csv = some later
  found_or none name csv = if str_eq sub.installed_csv name then some csv else none

  -- A relevant version, before what the rest of the loop finds.
  abbrev pub match_csv : String → Conversion → Matching → Matching
  match_csv name (unconverted e) rest = unmatched e
  match_csv name (converted csv) (unmatched e) = unmatched e
  match_csv name (converted csv) (matched m) = matched (record {
    related = existing_csv_obj csv ∷ m.related;
    found_csv = found_or m.found_csv name csv;
  })

  -- The loop over the listed versions.
  unfoldable pub match_csvs : List ListedCsv → Matching
  match_csvs [] = matched (record { related = []; found_csv = none })
  match_csvs (c ∷ cs) =
      let rest = match_csvs cs in
      let name = c.found.object.name in
      if is_relevant name then match_csv name c.conversion rest else rest

  abbrev pub or_missing : List RelatedObject → List RelatedObject
  or_missing [] = missing_csv_obj sub.name sub.namespace ∷ []
  or_missing (r ∷ rs) = r ∷ rs

  -- The names of the versions that are approved, unless the policy lists none.
  abbrev pub allowed_versions : List String → List String
  allowed_versions versions =
      keep (λ v. not (str_eq v "")) versions
      ++ (if not (str_eq sub.starting_csv "") then sub.starting_csv ∷ [] else [])

  unfoldable pub is_allowed : List String → String → Bool
  is_allowed [] name = true
  is_allowed (v ∷ vs) name = any (λ x. str_eq x name) (allowed_versions (v ∷ vs))

module _ {World : Type 0} (remover : Remover World) (policy : OperatorPolicy) (now : ℕ)
    (list : Subscription → World → World × CsvListing) where
  -- The report of the installed version, of the kind that stands in it.
  unfoldable pub report_csv : Subscription → List RelatedObject → Csv → Kind → Response
  unfolding is_allowed
  report_csv sub related csv kind = updated_to (
      if is_allowed sub policy.spec.versions csv.object.name
      then update_status policy now (allowed_csv_cond kind csv) related
      else update_status policy now (disallowed_csv_cond kind csv) (disallowed_csv_obj csv ∷ []))

  -- For a policy that wants the operator; none is the panic on an unknown kind.
  unfoldable pub wanted_csv : Subscription → List RelatedObject → Option Csv → Option CsvResponse
  unfolding report_csv
  wanted_csv sub related none = some (record {
    found_csv = none;
    response = updated_to (
        update_status policy now (missing_wanted_cond cluster_service_version)
          (or_missing sub related));
  })
  wanted_csv sub related (some csv) =
      Option.map
        (λ kind. record { found_csv = some csv; response = report_csv sub related csv kind })
        (kind_of_text csv.object.kind)

  unfoldable pub matched_csvs :
      Subscription → List ListedCsv → Matching → World → World × Option CsvResponse
  unfolding wanted_csv
  matched_csvs sub csvs (unmatched e) w =
      (w, some (record { found_csv = none; response = failing policy e }))
  matched_csvs sub csvs (matched m) w =
      let gone = mustnothave_csv remover policy now (map (λ c. c.found) csvs) sub.namespace w in
      if is_must_not_have policy.spec.compliance_type
      then (gone.0, some (record { found_csv = m.found_csv; response = gone.1 }))
      else (w, wanted_csv sub m.related m.found_csv)

  abbrev pub listed_csvs : Subscription → World × CsvListing → World × Option CsvResponse
  listed_csvs sub (w, csv_listing_failed e) = (
    w,
    some (record { found_csv = none; response = failing policy ("error listing CSVs: " <> e) }),
  )
  listed_csvs sub (w, csvs_listed csvs) = matched_csvs sub csvs (match_csvs sub csvs) w

  -- `handleCSV`, for the subscription if there is one.
  unfoldable pub handle_csv : Option Subscription → World → World × Option CsvResponse
  unfolding matched_csvs match_csvs
  handle_csv none w = (
    w,
    some (record {
      found_csv = none;
      response = updated_to (update_status policy now no_csv_cond (no_existing_csv_obj ∷ []));
    }),
  )
  handle_csv (some sub) w = listed_csvs sub (list sub w)
