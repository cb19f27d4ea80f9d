-- ===== src/Selector/Reachable.antt =====
-- The states of the reconciler that its operations reach, and what holds of all of them.
use config_policy_controller.Prelude.Assoc.{find}
use config_policy_controller.Prelude.{
  String, Bool, true, Option, none, some, List, [], ◌∷◌, Bool-cases, inl, inr, length, ◌==◌,
}
use config_policy_controller.Prelude.Text.{str_eq}
use config_policy_controller.Policy.{Target, is_empty}
use config_policy_controller.Selector.{
  get_key, split_key, Selection, Selector, stop, World, Answer, ok, error, target_string,
  selector_of, get_listed, get_parsed, get_new, get_found, get, refreshed, store, reconcile_listed,
  reconcile_each, reconcile,
}
use config_policy_controller.Selector.Cache.{
  IsCache, put-IsCache, remove-IsCache, update-IsCache, get_key-IsKey,
}

abbrev pub empty : {L : Type 0} → Selector L
empty = record { selections = []; sent = [] }

-- The world may have changed between two steps.
pub data Reachable (L Labels : Type 0) : Selector L → Type 1 where
  started : Reachable L Labels empty
  got :
      {r : Selector L} (world : World L Labels) (n m : String) (t : Target L)
      → Reachable L Labels r
      → Reachable L Labels (get world r n m t).0
  stopped : {r : Selector L} (n m : String) → Reachable L Labels r → Reachable L Labels (stop r n m)
  reconciled :
      {r : Selector L} (world : World L Labels)
      → Reachable L Labels r
      → Reachable L Labels (reconcile world r).0

module _ {L Labels : Type 0} (world : World L Labels) where
  module _ (r : Selector L) (n m : String) (t : Target L) (h : IsCache r.selections) where
    get_listed-IsCache :
        (a : Answer (List (String × Labels))) → IsCache (get_listed world r n m t a).0.selections
    unfolding get_listed
    get_listed-IsCache (error e) = h
    get_listed-IsCache (ok listed) = update-IsCache world.has_channel r n m _ h

    get_parsed-IsCache :
        (a : Answer (Labels → Bool)) → IsCache (get_parsed world r n m t a).0.selections
    unfolding get_parsed
    get_parsed-IsCache (error e) = update-IsCache world.has_channel r n m _ h
    get_parsed-IsCache (ok selects) = get_listed-IsCache (world.list selects)

    get_new-IsCache : IsCache (get_new world r n m t).0.selections
    unfolding get_new
    get_new-IsCache = elim (Bool-cases (is_empty t)) [
      | inl e ↦ rw e (update-IsCache world.has_channel r n m _ h)
      | inr e ↦ rw e (get_parsed-IsCache (selector_of world t))
    ]

    get_found-IsCache :
        (o : Option (Selection L)) → IsCache (get_found world r n m t o).0.selections
    unfolding get_found
    get_found-IsCache none = get_new-IsCache
    get_found-IsCache (some s) =
        elim (Bool-cases (str_eq (target_string world s.target) (target_string world t))) [
          | inl e ↦ rw e (put-IsCache (get_key n m) _ r.selections (get_key-IsKey n m) h)
          | inr e ↦ rw e get_new-IsCache
        ]

  store-IsCache :
      (r : Selector L) (n m : String) (o : Option (Selection L))
      → IsCache r.selections
      → IsCache (store world r n m o).selections
  store-IsCache r n m none h = h
  store-IsCache r n m (some s) h = update-IsCache world.has_channel r n m s h

  reconcile_each-IsCache :
      (nss : List (String × Labels)) (olds : List (String × Selection L)) (r : Selector L)
      → IsCache r.selections
      → IsCache (reconcile_each world nss olds r).selections
  unfolding reconcile_each
  reconcile_each-IsCache nss [] r h = h
  reconcile_each-IsCache nss ((k, old) ∷ olds) r h =
      reconcile_each-IsCache nss olds _
        (store-IsCache r (split_key k).0 (split_key k).1 (refreshed world nss old) h)

  reconcile_listed-IsCache :
      (r : Selector L) (a : Answer (List (String × Labels)))
      → IsCache r.selections
      → IsCache (reconcile_listed world r a).0.selections
  unfolding reconcile_listed
  reconcile_listed-IsCache r (error e) h = h
  reconcile_listed-IsCache r (ok nss) h = reconcile_each-IsCache nss r.selections r h

  reconcile-IsCache :
      (r : Selector L) → IsCache r.selections → IsCache (reconcile world r).0.selections
  unfolding reconcile
  reconcile-IsCache r h = elim (Bool-cases (length r.selections == 0)) [
    | inl e ↦ rw e h
    | inr e ↦ rw e (reconcile_listed-IsCache r (world.list (λ l. true)) h)
  ]

-- In every state that the operations of the namespace reconciler reach, no key stands twice in the
-- map, and `splitKey` takes every key apart into the parts that `getKey` joins to it.
pub Reachable-IsCache :
    {L Labels : Type 0} → (r : Selector L) → Reachable L Labels r → IsCache r.selections
unfolding stop get
Reachable-IsCache _ started = tt
Reachable-IsCache _ (got {r} world n m t h) =
    get_found-IsCache world r n m t (Reachable-IsCache r h) (find (get_key n m) r.selections)
Reachable-IsCache _ (stopped {r} n m h) =
    remove-IsCache (get_key n m) r.selections (Reachable-IsCache r h)
Reachable-IsCache _ (reconciled {r} world h) = reconcile-IsCache world r (Reachable-IsCache r h)
