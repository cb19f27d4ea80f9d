-- ===== src/Enforce/Verdict.antt =====
-- What the last event of `handleSingleObj` says, and when the cluster is left alone.
use config_policy_controller.Prelude.{
  String, ◌≡◌, refl, ◌∙◌, Bool, true, false, not, ◌&&◌, Option, none, some, List, [], ◌∷◌, ◌++◌,
  last?, is_some, arith, Bool-cases, inl, inr, if◌then◌else◌,
}
use config_policy_controller.Prelude.Text.{str_eq}
use config_policy_controller.Policy.{RelatedObject, is_enforce}
use config_policy_controller.Enforce.{
  Event, SingleObject, Requests, Enforced, Checked, event, tried_events, judge, judge_created,
  retained_diff, enforce_by_creating, enforce_by_deleting, handle_single_obj,
}

abbrev pub IsLast : Bool → List Event → Type 0
IsLast c events = (e : Event) × (last? events ≡ some e) × (e.compliant ≡ c)

last?-append : {A : Type 0} → (xs : List A) (x : A) → last? (xs ++ x ∷ []) ≡ some x
last?-append [] x = refl
last?-append (y ∷ []) x = refl
last?-append (y ∷ z ∷ ys) x = last?-append (z ∷ ys) x

IsLast-append :
    (c b : Bool) (xs : List Event) (x y : Event)
    → x.compliant ≡ c
    → y.compliant ≡ c
    → IsLast c (xs ++ (if b then x else y) ∷ [])
IsLast-append c true xs x y p q = (x, last?-append xs x, p)
IsLast-append c false xs x y p q = (y, last?-append xs y, q)

not-not : (b : Bool) → not (not b) ≡ b
not-not b = ground arith

judge-IsLast :
    (remediation uid : String) (c : Checked)
    → IsLast (not c.throw_spec_violation) (judge remediation uid c).0
unfolding judge
judge-IsLast remediation uid c = elim (Bool-cases c.throw_spec_violation) [
  | inl bad ↦ rw bad (
      IsLast-append false (not (str_eq c.msg "")) (tried_events c)
        (event false "K8s update template error" c.msg)
        (event false "Resource found but does not match" "") refl refl)
  | inr fine ↦ elim (Bool-cases (is_enforce remediation)) [
    | inl enforced ↦ rw fine (
        rw enforced (
          IsLast-append true (is_some c.updated_uid) (tried_events c)
            (event true "K8s update success" "") (event true "Resource found as expected" "") refl
            refl))
    | inr informed ↦ rw fine (
        rw informed
          (_, last?-append (tried_events c) (event true "Resource found as expected" ""), refl))
  ]
]

judge_created-IsLast :
    (o : SingleObject) (e : Enforced)
    → IsLast (e.completed && not o.has_status) (judge_created o e).0.events
unfolding judge_created
judge_created-IsLast o e = (_, refl, ground arith)

-- What was recalled is judged as it was found.
recalled-IsLast :
    (remediation uid : String) (fine : Bool) (said diff : String)
    → IsLast fine
        (judge remediation uid (record {
          throw_spec_violation = not fine;
          msg = said;
          diff = diff;
          tried_update = false;
          updated_uid = none;
        })).0
recalled-IsLast remediation uid fine said diff =
    let found = judge-IsLast remediation uid (record {
      throw_spec_violation = not fine;
      msg = said;
      diff = diff;
      tried_update = false;
      updated_uid = none;
    }) in
    (found.0, found.1, found.2 ∙ not-not fine)

module _ {World : Type 0} (requests : Requests World)
    (check_and_update_resource : World → World × Checked) where
  -- Whether the template is satisfied in the end: a wanted object is there and was found to match,
  -- or was created and has no status to verify; an unwanted one is not there, or was deleted.
  abbrev pub is_satisfied :
      SingleObject → String → Option String → Bool × Bool × String → World → Bool
  is_satisfied o remediation none evaluated w =
      if o.should_exist
      then is_enforce remediation
        && ((enforce_by_creating requests o w).1.completed && not o.has_status)
      else true
  is_satisfied o remediation (some uid) evaluated w =
      if o.should_exist
      then (if evaluated.0
          then evaluated.1
          else not (check_and_update_resource w).1.throw_spec_violation)
      else is_enforce remediation && (enforce_by_deleting requests o w).1.completed

  -- The last event of `handleSingleObj`, which there always is, is compliant exactly if the wanted
  -- object exists and matched now or at its recalled evaluation, or was created by enforcing and
  -- the template has no status, or the unwanted object does not exist or was deleted by enforcing.
  pub handle_single_obj-IsLast :
      (o : SingleObject) (remediation : String) (existing : Option String)
      (evaluated : Bool × Bool × String) (related : List RelatedObject) (w : World)
      → IsLast
          (is_satisfied o remediation existing evaluated w)
          (handle_single_obj requests check_and_update_resource o remediation existing evaluated
            related w).1.0.events
  unfolding handle_single_obj
  handle_single_obj-IsLast o remediation none evaluated related w =
      elim (Bool-cases o.should_exist) [
        | inr unwanted ↦ rw unwanted (_, refl, refl)
        | inl wanted ↦ elim (Bool-cases (is_enforce remediation)) [
          | inl enforced ↦
              rw wanted (rw enforced (judge_created-IsLast o (enforce_by_creating requests o w).1))
          | inr informed ↦ rw wanted (rw informed (_, refl, refl))
        ]
      ]
  handle_single_obj-IsLast o remediation (some uid) (recalled, fine, said) related w =
      elim (Bool-cases o.should_exist) [
        | inl wanted ↦ elim (Bool-cases recalled) [
          | inl old ↦
              rw wanted
                (rw old (recalled-IsLast remediation uid fine said (retained_diff related uid)))
          | inr new ↦
              rw wanted (rw new (judge-IsLast remediation uid (check_and_update_resource w).1))
        ]
        | inr unwanted ↦ elim (Bool-cases (is_enforce remediation)) [
          | inl enforced ↦ rw unwanted (rw enforced (_, refl, refl))
          | inr informed ↦ rw unwanted (rw informed (_, refl, refl))
        ]
      ]

  -- The existing object is compared, and not only recalled.
  abbrev pub is_compared : SingleObject → Option String → Bool × Bool × String → Bool
  is_compared o none evaluated = false
  is_compared o (some uid) evaluated = o.should_exist && not evaluated.0

  -- A policy that does not enforce leaves the cluster as it is and reports no enforcement error,
  -- unless the existing object has to be compared.
  pub handle_single_obj_inform :
      (o : SingleObject) (remediation : String) (existing : Option String)
      (evaluated : Bool × Bool × String) (related : List RelatedObject) (w : World)
      → is_enforce remediation ≡ false
      → is_compared o existing evaluated ≡ false
      → ((handle_single_obj requests check_and_update_resource o remediation existing evaluated
            related w).0
          ≡ w)
        × ((handle_single_obj requests check_and_update_resource o remediation existing evaluated
              related w).1.0.enforcement_err
            ≡ none)
  unfolding handle_single_obj
  handle_single_obj_inform o remediation none evaluated related w h c =
      elim (Bool-cases o.should_exist) [
        | inl wanted ↦ rw wanted (rw h (refl, refl))
        | inr unwanted ↦ rw unwanted (refl, refl)
      ]
  handle_single_obj_inform o remediation (some uid) (recalled, fine, said) related w h c =
      elim (Bool-cases o.should_exist) [
        | inl wanted ↦
            let old : recalled ≡ true = ground (arith, c, wanted) in rw wanted (rw old (refl, refl))
        | inr unwanted ↦ rw unwanted (rw h (refl, refl))
      ]
