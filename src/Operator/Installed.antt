-- ===== src/Operator/Installed.antt =====
-- Which version `handleCSV` takes for the installed one, and which ones are approved.
use config_policy_controller.Prelude.{
  String, ◌≡◌, ◌≢◌, ◌↔◌, ◌⊎◌, refl, sym, ◌∙◌, Bool, true, false, Option, none, some, List, [], ◌∷◌,
  map, keep, any, last?, In, Bool-cases, inl, inr, arith, eq_iff,
}
use config_policy_controller.Prelude.Text.{str_eq}
use config_policy_controller.Operator.Health.{Csv, existing_csv_obj}
use config_policy_controller.Operator.Versions.{
  Subscription, converted, ListedCsv, matched, is_relevant, found_or, match_csvs, allowed_versions,
  is_allowed,
}

-- A listed version that the conversion can read, with whether it is being deleted.
abbrev pub listed_of : Csv × Bool → ListedCsv
listed_of (csv, deleting) = record {
  found = record { object = csv.object; deleting = deleting };
  conversion = converted csv;
}

module _ (sub : Subscription) where
  -- The last version of the name that the subscription has installed.
  abbrev pub installed : List Csv → Option Csv
  installed csvs = last? (keep (λ csv. str_eq sub.installed_csv csv.object.name) csvs)

  last?-cons :
      (x : Csv) (xs : List Csv)
      → last? (x ∷ xs) ≡ (elim (last? xs) [ none ↦ some x | some y ↦ some y ])
  last?-cons x [] = refl
  last?-cons x (y ∷ ys) = rw (last?-cons y ys) (go (last? ys))
    where
      go :
          (o : Option Csv)
          → ◌≡◌ {A = Option Csv}
              (elim o [ none ↦ some y | some z ↦ some z ])
              (elim (elim o as (λ _. Option Csv) [ none ↦ some y | some z ↦ some z ]) [
                | none ↦ some x
                | some z ↦ some z
              ])
      go none = refl
      go (some z) = refl

  found_or_lem :
      (csv : Csv) (csvs : List Csv)
      → found_or sub (installed csvs) csv.object.name csv ≡ installed (csv ∷ csvs)
  found_or_lem csv csvs = elim (Bool-cases (str_eq sub.installed_csv csv.object.name)) [
    | inl same ↦
        let rest = keep (λ (x : Csv). str_eq sub.installed_csv x.object.name) csvs in
        rw same (rw (last?-cons csv rest) (go (last? rest) same))
    | inr other ↦ rw other (none_else (installed csvs) other)
  ]
    where
      go :
          (o : Option Csv)
          → str_eq sub.installed_csv csv.object.name ≡ true
          → ◌≡◌ {A = Option Csv}
              (found_or sub o csv.object.name csv)
              (elim o [ none ↦ some csv | some y ↦ some y ])
      go none same = rw same refl
      go (some y) same = refl

      none_else :
          (o : Option Csv)
          → str_eq sub.installed_csv csv.object.name ≡ false
          → found_or sub o csv.object.name csv ≡ o
      none_else none other = rw other refl
      none_else (some y) other = refl

  pub match_csvs_lem :
      (l : List (Csv × Bool))
      → match_csvs sub (map listed_of l)
        ≡ matched (record {
          related =
              map existing_csv_obj
                (keep (λ csv. is_relevant sub csv.object.name) (map (λ x. x.0) l));
          found_csv = installed (map (λ x. x.0) l);
        })
  unfolding match_csvs
  match_csvs_lem [] = refl
  match_csvs_lem ((csv, deleting) ∷ l) = elim (Bool-cases (is_relevant sub csv.object.name)) [
    | inl here ↦ rw here (rw (match_csvs_lem l) (rw (found_or_lem csv (map (λ x. x.0) l)) refl))
    | inr away ↦
        let other : str_eq sub.installed_csv csv.object.name ≡ false = ground (arith, away) in
        rw away (rw other (match_csvs_lem l))
  ]

  -- The name is approved: no names are listed, or it is one of them or the one to start with. Empty
  -- names do not count.
  abbrev pub IsAllowed : List String → String → Type 0
  IsAllowed versions name =
      (versions ≡ []) ⊎ ((name ≢ "") × (In name versions ⊎ (name ≡ sub.starting_csv)))

  any_start :
      (name : String)
      → any (λ x. str_eq x name) (allowed_versions sub []) ≡ true
        ↔ ((name ≢ "") × (name ≡ sub.starting_csv))
  any_start name =
      let at_name = eq_iff sub.starting_csv name in
      let at_empty = eq_iff sub.starting_csv "" in
      elim (Bool-cases (str_eq sub.starting_csv "")) [
        | inl empty ↦ rw empty (
          λ h. absurd (ground (arith, h)),
          λ (ne, e). absurd (ne (e ∙ ground (arith, at_empty, empty))),
        )
        | inr there ↦ rw there (
          λ h.
              let same : sub.starting_csv ≡ name = ground (arith, h, at_name) in
              (λ e. ground (arith, there, at_empty.1 (same ∙ e)), sym same),
          λ (ne, e). ground (arith, at_name.1 (sym e)),
        )
      ]

  any_keep :
      (vs : List String) (name : String)
      → any (λ x. str_eq x name) (allowed_versions sub vs) ≡ true
        ↔ ((name ≢ "") × (In name vs ⊎ (name ≡ sub.starting_csv)))
  any_keep [] name =
      let start = any_start name in
      (
        λ h. let (ne, e) = start.0 h in (ne, inr e),
        λ (ne, q). elim q [ inl i ↦ absurd i | inr e ↦ start.1 (ne, e) ],
      )
  any_keep (v ∷ vs) name =
      let ih = any_keep vs name in
      let at_name = eq_iff v name in
      let at_empty = eq_iff v "" in
      elim (Bool-cases (str_eq v "")) [
        | inl empty ↦ rw empty (
          λ h. let (ne, q) = ih.0 h in (ne, elim q [ inl i ↦ inl (inr i) | inr e ↦ inr e ]),
          λ (ne, q). elim q [
            | inl (inl e) ↦ absurd (ne (e ∙ ground (arith, at_empty, empty)))
            | inl (inr i) ↦ ih.1 (ne, inl i)
            | inr e ↦ ih.1 (ne, inr e)
          ],
        )
        | inr there ↦ rw there (
          λ h. elim (Bool-cases (str_eq v name)) [
            | inl same ↦
                let e : v ≡ name = ground (arith, same, at_name) in
                (λ n. ground (arith, there, at_empty.1 (e ∙ n)), inl (inl (sym e)))
            | inr other ↦
                let (ne, q) = ih.0 (ground (arith, h, other)) in
                (ne, elim q [ inl i ↦ inl (inr i) | inr e ↦ inr e ])
          ],
          λ (ne, q). elim q [
            | inl (inl e) ↦ ground (arith, at_name.1 (sym e))
            | inl (inr i) ↦ ground (arith, ih.1 (ne, inl i))
            | inr e ↦ ground (arith, ih.1 (ne, inr e))
          ],
        )
      ]

  pub is_allowed_lem :
      (versions : List String) (name : String)
      → is_allowed sub versions name ≡ true ↔ IsAllowed versions name
  unfolding is_allowed
  is_allowed_lem [] name = (λ h. inl refl, λ h. refl)
  is_allowed_lem (v ∷ vs) name =
      let kept = any_keep (v ∷ vs) name in
      (λ h. inr (kept.0 h), λ h. elim h [ inl e ↦ absurd (ground (arith, e)) | inr q ↦ kept.1 q ])
