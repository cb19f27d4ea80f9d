-- ===== src/Enforce/Created.antt =====
-- Two outcomes of enforcing that say two things at once.
use config_policy_controller.Prelude.{
  String, ◌≡◌, refl, Bool, true, false, ◌&&◌, none, some, List, [], ◌∷◌,
}
use config_policy_controller.Policy.{RelatedObject, is_enforce}
use config_policy_controller.Enforce.{
  SingleObject, CreateError, event, result_of, refused, Requests, not_found, Checked, properties_of,
  judge_created, awaits_namespace, enforce_answered, enforce_by_creating, enforce_by_deleting,
  handle_single_obj,
}
use config_policy_controller.Enforce.Verdict.{IsLast}

module _ {World : Type 0} (requests : Requests World)
    (check_and_update_resource : World → World × Checked) (o : SingleObject) (remediation : String)
    (evaluated : Bool × Bool × String) (related : List RelatedObject) where
  creating :
      (w : World)
      → o.should_exist ≡ true
      → is_enforce remediation ≡ true
      → handle_single_obj requests check_and_update_resource o remediation none evaluated related w
        ≡ (
          (enforce_by_creating requests o w).0,
          judge_created o (enforce_by_creating requests o w).1,
        )
  unfolding handle_single_obj
  creating w wanted enforced = simp (wanted, enforced)

  deleting :
      (w : World) (uid : String)
      → o.should_exist ≡ false
      → is_enforce remediation ≡ true
      → (handle_single_obj requests check_and_update_resource o remediation
          (some uid)
          evaluated
          related
          w).1
        ≡ (
          result_of o
              (event
                  (enforce_by_deleting requests o w).1.completed
                  (enforce_by_deleting requests o w).1.reason
                  (enforce_by_deleting requests o w).1.message
                ∷ [])
              (enforce_by_deleting requests o w).1.err,
          none,
        )
  unfolding handle_single_obj
  deleting w uid unwanted enforced = simp (unwanted, enforced)

  creation_refused :
      (w w' w'' : World) (e : CreateError)
      → requests.create w ≡ (w', refused e)
      → ((o.using_watch && e.is_status) && awaits_namespace o e) ≡ true
      → requests.watch_namespace w' ≡ (w'', none)
      → ((enforce_by_creating requests o w).1.completed ≡ false)
        × ((enforce_by_creating requests o w).1.uid ≡ "")
        × ((enforce_by_creating requests o w).1.err ≡ none)
  unfolding enforce_by_creating enforce_answered
  creation_refused w w' w'' e refusal awaits looked =
      rw (refusal, enforce_by_creating) (refl, refl, rw awaits (rw looked refl))

  gone :
      (w w' : World) (e : String)
      → requests.delete w ≡ (w', not_found e)
      → ((enforce_by_deleting requests o w).1.completed ≡ true)
        × ((enforce_by_deleting requests o w).1.err ≡ some e)
  unfolding enforce_by_deleting
  gone w w' e missing = rw (missing, enforce_by_deleting) (refl, refl)

  -- When a policy that enforces and watches could not create a wanted object because its namespace
  -- is missing or terminating, and the namespace could then be looked up, the last event is
  -- noncompliant, no error is reported, and the properties say that the policy created the object,
  -- with an empty UID.
  pub handle_single_obj_uncreated :
      (w w' w'' : World) (e : CreateError)
      → o.should_exist ≡ true
      → is_enforce remediation ≡ true
      → requests.create w ≡ (w', refused e)
      → ((o.using_watch && e.is_status) && awaits_namespace o e) ≡ true
      → requests.watch_namespace w' ≡ (w'', none)
      → let r =
          (handle_single_obj requests check_and_update_resource o remediation none evaluated related
            w).1 in
        IsLast false r.0.events
        × (r.0.enforcement_err ≡ none)
        × (r.1 ≡ some (properties_of true "" ""))
  unfolding judge_created
  handle_single_obj_uncreated w w' w'' e wanted enforced refusal awaits looked =
      let (incomplete, no_uid, no_err) = creation_refused w w' w'' e refusal awaits looked in
      rw (creating w wanted enforced) (
        rw (incomplete, judge_created)
          (rw (no_err, judge_created) (rw (no_uid, judge_created) ((_, refl, refl), refl, refl))))
