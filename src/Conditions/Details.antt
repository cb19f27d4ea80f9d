-- ===== src/Conditions/Details.antt =====
-- What `add_condition_to_status` does to the details of a policy.
use config_policy_controller.Prelude.{
  ℕ, zero, suc, String, ◌≡◌, ◌≢◌, refl, sym, ◌∙◌, ◌+◌, ◌-◌, ◌≤◌, ◌<◌, Bool, true, false, some, List,
  [], ◌∷◌, ◌++◌, arith, eq_iff, Bool-cases, Option-cases, inl, inr, get_elem?, set, last?, length,
  replicate, length-append, length-set, length-replicate, leb, max,
}
use config_policy_controller.Prelude.Positions.{
  get_elem?-set_self, get_elem?-set_ne, set-get_elem?, get_elem?_total, get_elem?-append_left,
  get_elem?-append_right, get_elem?-replicate, last?-set,
}
use mathlib.Core.List.{append-nil, append_assoc}
use config_policy_controller.Policy.{
  ConfigurationPolicy, ComplianceState, unknown_compliancy, state_eq, TemplateStatus, Condition,
}
use config_policy_controller.Conditions.{
  state_of, pad_state, pad_details, same_condition, place_condition, place_at, new_condition,
  add_condition_to_status,
}

abbrev pub blank : TemplateStatus
blank = record { compliance_state = unknown_compliancy; conditions = [] }

pad_state_blank :
    (index : ℕ) (state : ComplianceState) (details : List TemplateStatus)
    → length details ≤ index
    → pad_state index state details ≡ unknown_compliancy
unfolding pad_state
pad_state_blank index state details h = ground arith

more_to_pad :
    (index : ℕ) (details : List TemplateStatus)
    → length details ≤ index
    → (details ++ blank ∷ []) ++ replicate (index + 1 - length (details ++ blank ∷ [])) blank
      ≡ details ++ replicate (index + 1 - length details) blank
more_to_pad index details h =
    let e : index + 1 - length details ≡ suc (index + 1 - length (details ++ blank ∷ [])) =
      omega (arith, length-append details (blank ∷ [])) in
    rw e (append_assoc details (blank ∷ []) _)

-- The loop of `addConditionToStatus` adds blank entries up to the index, whatever the new state is:
-- its test that would give the entry at the index the new state never passes.
pub pad_details_lem :
    (fuel index : ℕ) (state : ComplianceState) (details : List TemplateStatus)
    → index + 1 ≤ length details + fuel
    → pad_details fuel index state details ≡ details ++ replicate (index + 1 - length details) blank
unfolding pad_details
pad_details_lem zero index state details h =
    let e : index + 1 - length details ≡ 0 = omega arith in rw e (sym (append-nil details))
pad_details_lem (suc fuel) index state details h = elim (Bool-cases (leb (length details) index)) [
  | inl more ↦
      let few : length details ≤ index = ground arith in
      rw (more, pad_state_blank index state details few)
        (pad_details_lem fuel index state (details ++ blank ∷ [])
            (omega (arith, length-append details (blank ∷ [])))
          ∙ more_to_pad index details few)
  | inr done ↦
      let e : index + 1 - length details ≡ 0 = ground arith in
      rw (done, e) (sym (append-nil details))
]

padded : ℕ → List TemplateStatus → List TemplateStatus
padded index details = details ++ replicate (index + 1 - length details) blank

length-padded :
    (index : ℕ) (details : List TemplateStatus)
    → length (padded index details) ≡ max (length details) (index + 1)
unfolding padded
length-padded index details = omega (
  arith,
  length-append details (replicate (index + 1 - length details) blank),
  length-replicate (index + 1 - length details) blank,
)

padded_short :
    (index : ℕ) (details : List TemplateStatus)
    → index < length details
    → padded index details ≡ details
unfolding padded
padded_short index details h =
    let e : index + 1 - length details ≡ 0 = omega arith in rw e (append-nil details)

state_eq_sound : (a b : ComplianceState) → state_eq a b ≡ true → a ≡ b
state_eq_sound a b h = ground arith

-- The new condition is the last one of the entry, except for its time if it says nothing new.
abbrev pub Records : ComplianceState → Condition → TemplateStatus → Type 0
Records state new d =
    (d.compliance_state ≡ state)
    × ((c : Condition) × (last? d.conditions ≡ some c)
        × (c.kind ≡ new.kind)
        × (c.status ≡ new.status)
        × (c.reason ≡ new.reason)
        × (c.message ≡ new.message))

same_condition_sound :
    (old new : Condition)
    → same_condition old new ≡ true
    → (old.kind ≡ new.kind)
      × (old.status ≡ new.status)
      × (old.reason ≡ new.reason)
      × (old.message ≡ new.message)
unfolding same_condition
same_condition_sound old new h = ground (
  arith,
  eq_iff old.kind new.kind,
  eq_iff old.status new.status,
  eq_iff old.reason new.reason,
  eq_iff old.message new.message,
)

place_condition-Records :
    (state : ComplianceState) (new : Condition) (d : TemplateStatus)
    → Records state new (place_condition state new d).0
unfolding place_condition
place_condition-Records state new d = elim (Option-cases (last? d.conditions)) [
  | inl missing ↦ rw (missing, place_condition) (refl, (new, refl, refl, refl, refl, refl))
  | inr (old, e) ↦ elim (Bool-cases (same_condition old new)) [
    | inl same ↦
        let (k, st, r, m) = same_condition_sound old new same in
        rw (e, place_condition) (rw same (refl, (old, e, k, st, r, m)))
    | inr other ↦
        rw (e, place_condition)
          (rw other (refl, (new, last?-set d.conditions old new e, refl, refl, refl, refl)))
  ]
]

place_condition_unchanged :
    (state : ComplianceState) (new : Condition) (d : TemplateStatus)
    → (place_condition state new d).1 ≡ false
    → (place_condition state new d).0 ≡ d
unfolding place_condition
place_condition_unchanged state new d h = ground (arith)

-- What the new details are to the old ones, with the result `needed`.
pub record Updates (index : ℕ) (state : ComplianceState) (new : Condition)
    (old details : List TemplateStatus) (needed : Bool) : Type 0 where
  pub entry : TemplateStatus
  pub at_index : get_elem? details index ≡ some entry
  pub recorded : Records state new entry
  pub others : (j : ℕ) → j ≢ index → j < length old → get_elem? details j ≡ get_elem? old j
  pub added : (j : ℕ) → length old ≤ j → j < index → get_elem? details j ≡ some blank
  pub as_long : length details ≡ max (length old) (index + 1)
  pub fresh : length old ≤ index → needed ≡ true
  pub unchanged : index < length old → needed ≡ false → details ≡ old

module _ (index : ℕ) (state : ComplianceState) (new : Condition) (old : List TemplateStatus) where
  place_at_padded :
      (d : TemplateStatus)
      → get_elem? (padded index old) index ≡ some d
      → Updates index state new old
          (set (padded index old) index (place_condition state new d).0)
          (place_condition state new d).1
  unfolding padded place_condition
  place_at_padded d e = record {
    entry = (place_condition state new d).0;
    at_index = get_elem?-set_self _ index _ (omega (arith, length-padded index old));
    recorded = place_condition-Records state new d;
    others = λ j ne lt.
        get_elem?-set_ne _ index j _ (λ p. ne (sym p)) ∙ get_elem?-append_left old _ j lt;
    added = λ j le lt.
        get_elem?-set_ne _ index j _ (omega arith)
        ∙ get_elem?-append_right old _ j le
        ∙ get_elem?-replicate (index + 1 - length old) (j - length old) blank (omega arith);
    fresh = λ le. rw (is_blank le) refl;
    as_long = length-set _ index _ ∙ length-padded index old;
    unchanged = λ lt h.
        rw (place_condition_unchanged state new d h)
          (set-get_elem? _ index d e ∙ padded_short index old lt);
  }
    where
      is_blank : length old ≤ index → d ≡ blank
      is_blank le =
          let same : some d ≡ some blank =
            sym e
            ∙ get_elem?-append_right old _ index le
            ∙ get_elem?-replicate (index + 1 - length old) (index - length old) blank
                (omega arith) in
          cc

  place_at_lem :
      (d : TemplateStatus)
      → get_elem? (padded index old) index ≡ some d
      → place_at index state new (pad_details (index + 1) index state old)
        ≡ some (
          set (padded index old) index (place_condition state new d).0,
          (place_condition state new d).1,
        )
  unfolding place_at padded
  place_at_lem d e =
      rw (pad_details_lem (index + 1) index state old (omega arith)) (rw (e, place_at))

module _ {L : Type 0} (plc : ConfigurationPolicy L) (index : ℕ) (is_compliant : Bool) where
  -- Setting a condition always succeeds, and the entry at the index then has the state of the
  -- result and, as its last condition, the new one or one that says the same. Other entries stay as
  -- they were, entries that had to be added are blank, and nothing more is added. When no update is
  -- needed nothing has changed; an entry that was not there always needs one.
  pub add_condition_to_status_lem :
      (reason message : String) (now : ℕ)
      → (details : List TemplateStatus) × (needed : Bool) × (add_condition_to_status plc index
            is_compliant reason message now
          ≡ some (details, needed))
        × Updates index
            (state_of is_compliant reason).0
            (new_condition plc is_compliant reason message now)
            plc.status.compliancy_details
            details
            needed
  unfolding add_condition_to_status
  add_condition_to_status_lem reason message now =
      let state = (state_of is_compliant reason).0 in
      let new = new_condition plc is_compliant reason message now in
      let old = plc.status.compliancy_details in
      let (d, e) =
        get_elem?_total (padded index old) index (omega (arith, length-padded index old)) in
      (
        set (padded index old) index (place_condition state new d).0,
        (place_condition state new d).1,
        place_at_lem index state new old d e,
        place_at_padded index state new old d e,
      )
