-- ===== src/Enforce.antt =====
-- The handling of one object of a template: `handleSingleObj`, `enforceByCreating` and
-- `enforceByDeleting` of controllers/configurationpolicy_controller.go, with `identifierStr` of
-- controllers/configurationpolicy_utils.go. The API server and the watch cache are parameters, and
-- so is the result of `checkAndUpdateResource`, which only this code calls.
pub mod Verdict
pub mod Created
pub mod Tests
use config_policy_controller.Prelude.{
  ℕ, String, Bool, true, false, not, ◌&&◌, ◌||◌, Option, none, some, List, [], ◌∷◌, ◌++◌, is_some,
  if◌then◌else◌,
}
use config_policy_controller.Prelude.Text.{str_eq, str_ltb, contains, ◌<>◌, join}
use config_policy_controller.Prelude.Sort.{sort_by}
use config_policy_controller.Policy.{ObjectProperties, RelatedObject, is_enforce}

-- `objectTmplEvalEvent`
pub record Event : Type 0 where
  pub compliant : Bool
  pub reason : String
  pub message : String

-- `objectTmplEvalResult`
pub record EvalResult : Type 0 where
  pub object_names : List String
  pub namespace : String
  pub events : List Event
  pub enforcement_err : Option String

-- `singleObject`, as far as it is read here: the resource, whether it is namespaced, the name and
-- the namespace, whether the policy watches, and what the template says.
pub record SingleObject : Type 0 where
  pub resource : String
  pub namespaced : Bool
  pub name : String
  pub namespace : String
  pub using_watch : Bool
  pub should_exist : Bool
  pub has_status : Bool

-- `identifierStr`
unfoldable pub identifier_str : List String → String → String
identifier_str names namespace =
    let listed = "[" <> (join ", " (sort_by str_ltb names) <> "]") in
    let name_str = if str_eq listed "[]" then "" else listed in
    if not (str_eq namespace "")
    then (if not (str_eq name_str "") then name_str <> " " else name_str)
      <> ("in namespace " <> namespace)
    else name_str

-- An error of the API server: its text, and, if it is a status error, the reason, the kind of its
-- details if it has details, and the type of the first cause if there is one.
pub record CreateError : Type 0 where
  pub text : String
  pub is_status : Bool
  pub reason : String
  pub details_kind : Option String
  pub first_cause : Option String

pub data CreateAnswer : Type 0 where
  created : String → CreateAnswer
  refused : CreateError → CreateAnswer

-- The answer to a deletion: accepted, not found, or failed, the last two with the text of the error.
pub data DeleteAnswer : Type 0 where
  accepted : DeleteAnswer
  not_found failed : String → DeleteAnswer

-- The requests: the creation with its validation, the deletion, and the read of the namespace through the watch cache (the error, if there is one).
pub record Requests (World : Type 0) : Type 0 where
  pub create : World → World × CreateAnswer
  pub delete : World → World × DeleteAnswer
  pub watch_namespace : World → World × Option String

-- What an enforcement returns: whether it completed, the reason, the message, the UID, the error.
pub record Enforced : Type 0 where
  pub completed : Bool
  pub reason : String
  pub message : String
  pub uid : String
  pub err : Option String

-- The namespace is missing or going away.
unfoldable pub awaits_namespace : SingleObject → CreateError → Bool
awaits_namespace o e =
    let not_found =
      o.namespaced
      && (str_eq e.reason "NotFound"
          && (elim (e.details_kind) [ none ↦ false | some k ↦ str_eq k "namespaces" ])) in
    let terminating =
      o.namespaced
      && (str_eq e.reason "Forbidden"
          && (is_some e.details_kind && (elim (e.first_cause) [
            | none ↦ false
            | some c ↦ str_eq c "NamespaceTerminating"
          ]))) in
    not_found || terminating

module _ {World : Type 0} (requests : Requests World) where
  unfoldable pub enforce_answered : SingleObject → World → CreateAnswer → World × Enforced
  unfolding identifier_str awaits_namespace
  enforce_answered o w (created new_uid) = (
    w,
    record {
      completed = true;
      reason = "K8s creation success";
      message =
          o.resource
          <> (" " <> (identifier_str (o.name ∷ []) o.namespace <> " was created successfully"));
      uid = new_uid;
      err = none;
    },
  )
  enforce_answered o w (refused e) =
      let looked = requests.watch_namespace w in
      let awaits = (o.using_watch && e.is_status) && awaits_namespace o e in
      (
        if awaits then looked.0 else w,
        record {
          completed = false;
          reason = "K8s creation error";
          message =
              o.resource
              <> (" "
                  <> (identifier_str (o.name ∷ []) o.namespace
                      <> (" is missing, and cannot be created, reason: `" <> (e.text <> "`"))));
          uid = "";
          err = if awaits then looked.1 else some e.text;
        },
      )

  -- `enforceByCreating`
  unfoldable pub enforce_by_creating : SingleObject → World → World × Enforced
  unfolding enforce_answered
  enforce_by_creating o w = let (w', answer) = requests.create w in enforce_answered o w' answer

  -- `enforceByDeleting`. An object that is not found counts as deleted, yet its error is returned.
  unfoldable pub enforce_by_deleting : SingleObject → World → World × Enforced
  unfolding identifier_str
  enforce_by_deleting o w =
      let done = requests.delete w in
      let id_str = identifier_str (o.name ∷ []) o.namespace in
      let deleted : Option String → Enforced = λ e. record {
        completed = true;
        reason = "K8s deletion success";
        message = o.resource <> (" " <> (id_str <> " was deleted successfully"));
        uid = "";
        err = e;
      } in
      elim (done.1) [
        | failed e ↦ (
          done.0,
          record {
            completed = false;
            reason = "K8s deletion error";
            message =
                o.resource
                <> (" " <> (id_str <> (" exists, and cannot be deleted, reason: `" <> (e <> "`"))));
            uid = "";
            err = some e;
          },
        )
        | not_found e ↦ (done.0, deleted (some e))
        | accepted ↦ (done.0, deleted none)
      ]

-- What `checkAndUpdateResource` returns: whether there is a violation, its message, the difference,
-- whether an update was tried, and the UID of the updated object if there is one.
pub record Checked : Type 0 where
  pub throw_spec_violation : Bool
  pub msg : String
  pub diff : String
  pub tried_update : Bool
  pub updated_uid : Option String

-- The difference that the last evaluation left in the status.
unfoldable pub retained_diff : List RelatedObject → String → String
retained_diff [] uid = ""
retained_diff (r ∷ rs) uid =
    let rest = retained_diff rs uid in
    elim (r.properties) [ none ↦ rest | some p ↦ if str_eq p.uid uid then p.diff else rest ]

abbrev pub event : Bool → String → String → Event
event c r m = record { compliant = c; reason = r; message = m }

abbrev pub properties_of : Bool → String → String → ObjectProperties
properties_of was_created uid diff = record {
  created_by_policy = some was_created;
  uid = uid;
  diff = diff;
}

-- The UID after the check, and whether the object is a new one.
unfoldable pub replaced_uid : String → Option String → Bool × String
replaced_uid uid none = (false, uid)
replaced_uid uid (some u) = if not (str_eq u uid) then (true, u) else (false, uid)

-- The event for an object that was mismatched and that an update was tried for.
abbrev pub tried_events : Checked → List Event
tried_events c =
    if c.tried_update && not (contains c.msg "Error validating the object")
    then event false "Resource found but does not match" "" ∷ []
    else []

-- The events and the properties for an object that exists and should.
unfoldable pub judge : String → String → Checked → List Event × Option ObjectProperties
unfolding replaced_uid
judge remediation uid c =
    let (was_created, new_uid) = replaced_uid uid c.updated_uid in
    let props = some (properties_of was_created new_uid c.diff) in
    let tried = tried_events c in
    if c.throw_spec_violation
    then (
      tried
          ++ (if not (str_eq c.msg "")
              then event false "K8s update template error" c.msg
              else event false "Resource found but does not match" "")
            ∷ [],
      props,
    )
    else if is_enforce remediation
    then (
      tried
          ++ (if is_some c.updated_uid
              then event true "K8s update success" ""
              else event true "Resource found as expected" "")
            ∷ [],
      props,
    )
    else (tried ++ event true "Resource found as expected" "" ∷ [], none)

abbrev pub result_of : SingleObject → List Event → Option String → EvalResult
result_of o events err = record {
  object_names = o.name ∷ [];
  namespace = o.namespace;
  events = events;
  enforcement_err = err;
}

-- The events and the properties for a missing object whose creation was tried.
unfoldable pub judge_created : SingleObject → Enforced → EvalResult × Option ObjectProperties
judge_created o e =
    let missing = event false "Resource not found but should exist" "" in
    let tried =
      if e.completed && o.has_status
      then event false (e.reason <> ", status unchecked")
          (e.message <> ", the status of the object will be verified in the next evaluation")
      else event e.completed e.reason e.message in
    (
      result_of o (missing ∷ tried ∷ []) e.err,
      (elim (e.err) [ none ↦ some (properties_of true e.uid "") | some err ↦ none ]),
    )

module _ {World : Type 0} (requests : Requests World)
    (check_and_update_resource : World → World × Checked) where
  -- `handleSingleObj`, for the UID of the existing object if there is one, what `alreadyEvaluated`
  -- says of it, and the related objects of the status.
  unfoldable pub handle_single_obj :
      SingleObject
      → String
      → Option String
      → Bool × Bool × String
      → List RelatedObject
      → World
      → World × (EvalResult × Option ObjectProperties)
  unfolding enforce_by_creating enforce_by_deleting judge judge_created retained_diff
  handle_single_obj o remediation none evaluated related w =
      if o.should_exist
      then (if is_enforce remediation
          then (let (w', e) = enforce_by_creating requests o w in (w', judge_created o e))
          else (
            w,
            (result_of o (event false "Resource not found but should exist" "" ∷ []) none, none),
          ))
      else (w, (result_of o (event true "Resource not found as expected" "" ∷ []) none, none))
  handle_single_obj o remediation (some uid) evaluated related w =
      if o.should_exist
      then (let checked =
            if evaluated.0
            then (
              w,
              record {
                throw_spec_violation = not evaluated.1;
                msg = evaluated.2;
                diff = retained_diff related uid;
                tried_update = false;
                updated_uid = none;
              },
            )
            else check_and_update_resource w in
          let (events, props) = judge remediation uid checked.1 in
          (checked.0, (result_of o events none, props)))
      else if is_enforce remediation
      then (let (w', e) = enforce_by_deleting requests o w in
          (w', (result_of o (event e.completed e.reason e.message ∷ []) e.err, none)))
      else (w, (result_of o (event false "Resource found but should not exist" "" ∷ []) none, none))
