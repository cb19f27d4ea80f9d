-- ===== src/Objects/Verdict.antt =====
-- The related objects and the last event of `handleObjects` agree.
use config_policy_controller.Prelude.{
  String, suc, ◌≡◌, refl, Bool, true, false, not, Option, none, some, List, [], ◌∷◌, ◌++◌, map, any,
  last?, All, length, ◌==◌, arith, Bool-cases, inl, inr, if◌then◌else◌,
}
use config_policy_controller.Prelude.Text.{str_eq}
use config_policy_controller.Policy.{ObjectProperties, RelatedObject, is_must_not_have}
use config_policy_controller.Related.{
  ScopedGvr, compliance_text, object_eq, update_entry, add_or_update_related_object, add_each,
  add_related_objects, add_condensed_related_objs,
}
use config_policy_controller.Enforce.{Event, EvalResult, Requests, Checked, handle_single_obj}
use config_policy_controller.Enforce.Verdict.{IsLast, handle_single_obj-IsLast}
use config_policy_controller.Objects.{
  Template, CacheAnswer, unwatchable, failed, found, Reads, Found, returned, looked, found_cached,
  found_names, look, unnamed_event, single_object, related_single, handle_unnamed, handle_found,
  handle_objects,
}

module _ (P : RelatedObject → Type 0) where
  chosen : {x y : RelatedObject} (b : Bool) → P x → P y → P (if b then x else y)
  chosen true p q = p
  chosen false p q = q

  All-update_entry :
      (r : RelatedObject) (rs : List RelatedObject)
      → P r
      → All P rs
      → All P (map (update_entry r) rs)
  unfolding update_entry
  All-update_entry r [] p h = tt
  All-update_entry r (x ∷ xs) p (q, h) = (chosen _ p q, All-update_entry r xs p h)

  All-append_one :
      (r : RelatedObject) (rs : List RelatedObject) → P r → All P rs → All P (rs ++ r ∷ [])
  All-append_one r [] p h = (p, tt)
  All-append_one r (x ∷ xs) p (q, h) = (q, All-append_one r xs p h)

  All-add_or_update :
      (r : RelatedObject) (rs : List RelatedObject)
      → P r
      → All P rs
      → All P (add_or_update_related_object rs r)
  unfolding add_or_update_related_object
  All-add_or_update r rs p h =
      elim (Bool-cases (any (λ (c : RelatedObject). object_eq c.object r.object) rs)) [
        | inl old ↦ rw old (All-update_entry r rs p h)
        | inr new ↦ rw new (All-append_one r _ p (All-update_entry r rs p h))
      ]

  All-add_each :
      (make : String → RelatedObject) (rs : List RelatedObject) (names : List String)
      → ((n : String) → P (make n))
      → All P rs
      → All P (add_each make rs names)
  unfolding add_each
  All-add_each make rs [] p h = h
  All-add_each make rs (n ∷ ns) p h =
      All-add_each make (add_or_update_related_object rs (make n)) ns p
        (All-add_or_update (make n) rs (p n) h)

-- The related object says what the event says.
abbrev pub Reports : Event → RelatedObject → Type 0
Reports e r = (r.compliant ≡ compliance_text e.compliant) × (r.reason ≡ e.reason)

-- There is a last event, and all related objects say what it says.
abbrev pub IsReported : List Event → List RelatedObject → Type 0
IsReported events related = (e : Event) × (last? events ≡ some e) × All (Reports e) related

related_single-IsReported :
    (t : Template) (gvr : ScopedGvr) (result : EvalResult) (props : Option ObjectProperties)
    (e : Event)
    → last? result.events ≡ some e
    → IsReported result.events (related_single t gvr result props)
unfolding related_single add_related_objects
related_single-IsReported t gvr result props e h = (
  e,
  h,
  rw (h, related_single) (All-add_each (Reports e) _ [] result.object_names (λ n. (refl, refl)) tt),
)

Reports-either :
    (t : Template) (gvr : ScopedGvr) (names : List String) (e : Event) (condensed : Bool)
    → All (Reports e) (
        if condensed
        then add_condensed_related_objs gvr e.compliant t.kind t.namespace e.reason
        else add_related_objects e.compliant gvr t.kind t.namespace names e.reason none)
unfolding add_related_objects add_condensed_related_objs
Reports-either t gvr names e true = ((refl, refl), tt)
Reports-either t gvr names e false = All-add_each (Reports e) _ [] names (λ n. (refl, refl)) tt

handle_unnamed-IsReported :
    (t : Template) (gvr : ScopedGvr) (names all_names : List String) (exists : Bool)
    → IsReported
        (handle_unnamed t gvr names all_names exists).1.events
        (handle_unnamed t gvr names all_names exists).0
unfolding handle_unnamed
handle_unnamed-IsReported t gvr names all_names exists =
    let e = unnamed_event t (not (is_must_not_have t.compliance_type)) all_names exists in
    (e.0, refl, Reports-either t gvr names e.0 e.1)

handle_unnamed-IsLast :
    (t : Template) (gvr : ScopedGvr) (names all_names : List String) (exists : Bool)
    → IsLast
        (if exists
          then not (is_must_not_have t.compliance_type)
          else is_must_not_have t.compliance_type)
        (handle_unnamed t gvr names all_names exists).1.events
unfolding handle_unnamed unnamed_event
handle_unnamed-IsLast t gvr names all_names exists = (_, refl, ground arith)

two_or_more : {A : Type 0} → (xs : List A) → (suc (suc (length xs)) == 0) ≡ false
two_or_more xs = ground arith

-- An early return has an event.
abbrev HasEvent : Found → Type 0
HasEvent (returned r) = (e : Event) × (last? r.events ≡ some e)
HasEvent (looked names all_names existing exists remediation) = Unit

found_cached-HasEvent : (t : Template) (a : CacheAnswer) → HasEvent (found_cached t a)
unfolding found_cached
found_cached-HasEvent t (unwatchable err) = (_, refl)
found_cached-HasEvent t failed = tt
found_cached-HasEvent t (found existing) = tt

found_names-HasEvent :
    (names all_names : List String) (get : String → Option String)
    → HasEvent (found_names names all_names get)
unfolding found_names
found_names-HasEvent [] all_names get = tt
found_names-HasEvent (n ∷ []) all_names get = tt
found_names-HasEvent (n ∷ m ∷ ns) all_names get = tt

module _ {World : Type 0} (reads : Reads World) (requests : Requests World)
    (check_and_update_resource : World → World × Checked) (related : List RelatedObject) where
  look-HasEvent : (t : Template) (w : World) → HasEvent (look reads t w)
  unfolding look
  look-HasEvent t w = elim (Bool-cases (str_eq t.name "")) [
    | inl unnamed ↦ elim (Bool-cases (str_eq t.kind "")) [
      | inl bare ↦ rw unnamed (rw bare tt)
      | inr kinded ↦ rw unnamed (rw kinded (found_names-HasEvent _ _ _))
    ]
    | inr named ↦ elim (Bool-cases t.using_watch) [
      | inl watching ↦ rw named (rw watching (found_cached-HasEvent t _))
      | inr polling ↦ rw named (rw polling tt)
    ]
  ]

  handle_found-IsReported :
      (t : Template) (gvr : ScopedGvr) (f : Found) (w : World)
      → HasEvent f
      → let r = (handle_found reads requests check_and_update_resource related t gvr f w).1 in
        IsReported r.1.events r.0
  unfolding handle_found
  handle_found-IsReported t gvr (returned result) w (e, h) = (e, h, tt)
  handle_found-IsReported t gvr (looked [] all_names existing exists remediation) w h =
      handle_unnamed-IsReported t gvr [] all_names exists
  handle_found-IsReported t gvr (looked (n ∷ []) all_names existing exists remediation) w h =
      let evaluated : Bool × Bool × String = elim existing [
        | none ↦ (false, false, "")
        | some uid ↦ reads.already_evaluated uid
      ] in
      let last' =
        handle_single_obj-IsLast requests check_and_update_resource (single_object t gvr n)
          remediation existing evaluated related w in
      let done =
        handle_single_obj requests check_and_update_resource (single_object t gvr n) remediation
          existing evaluated related w in
      related_single-IsReported t gvr done.1.0 done.1.1 last'.0 last'.1
  handle_found-IsReported t gvr (looked (n ∷ m ∷ ns) all_names existing exists remediation) w h =
      handle_unnamed-IsReported t gvr (n ∷ m ∷ ns) all_names exists

  -- `handleObjects` always gives an event, and every related object that it gives has the
  -- compliance and the reason of the last event.
  pub handle_objects-IsReported :
      (t : Template) (gvr : ScopedGvr) (w : World)
      → let r = (handle_objects reads requests check_and_update_resource related t gvr w).1 in
        IsReported r.1.events r.0
  unfolding handle_objects
  handle_objects-IsReported t gvr w =
      handle_found-IsReported t gvr (look reads t w) w (look-HasEvent t w)
