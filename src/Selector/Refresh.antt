-- ===== src/Selector/Refresh.antt =====
-- What the cache holds after a reconciliation and after a read.
use config_policy_controller.Prelude.Assoc.{find, find-put}
use config_policy_controller.Prelude.{
  String, ◌≡◌, ◌⊎◌, refl, sym, ap, true, false, Option, none, some, List, [], ◌∷◌, arith, eq_iff,
  Bool-cases, inl, inr, length, ◌==◌, if◌then◌else◌,
}
use config_policy_controller.Prelude.Text.{str_eq}
use config_policy_controller.Selector.{
  get_key, split_key, Selection, Selector, has_update, update, World, ok, filter, selection_of,
  all_equal, same_names, refreshed_as, refreshed, store, reconcile_each, reconcile_listed,
  reconcile,
}
use config_policy_controller.Selector.Cache.{IsKey, IsCache}
use config_policy_controller.Selector.Reachable.{Reachable, Reachable-IsCache, reconciled}

all_equal_sound : (ns ms : List String) → all_equal ns ms ≡ true → ns ≡ ms
all_equal_sound [] [] h = refl
all_equal_sound [] (m ∷ ms) h = absurd (ground (arith, h))
all_equal_sound (n ∷ ns) [] h = absurd (ground (arith, h))
all_equal_sound (n ∷ ns) (m ∷ ms) h =
    let rest = all_equal_sound ns ms (ground (arith, h)) in
    let first = (eq_iff n m).0 (ground (arith, h)) in cc

same_names_sound : (o p : Option (List String)) → same_names o p ≡ true → o ≡ p
same_names_sound none none h = refl
same_names_sound none (some ms) h = absurd (ground (arith, h))
same_names_sound (some ns) none h = absurd (ground (arith, h))
same_names_sound (some ns) (some ms) h = ap some (all_equal_sound ns ms h)

module _ {L Labels : Type 0} (world : World L Labels) (nss : List (String × Labels)) where
  -- The selection after it was considered.
  abbrev or_old : Selection L → Option (Selection L) → Selection L
  or_old old none = old
  or_old old (some s) = s

  abbrev fresh : Selection L → Selection L
  fresh old = or_old old (refreshed world nss old)

  abbrev expected : Option (Selection L) → Option (Selection L) → Option (Selection L)
  expected none current = current
  expected (some old) current = elim (refreshed world nss old) [ none ↦ current | some s ↦ some s ]

  find-store :
      (k key : String) (r : Selector L) (o : Option (Selection L))
      → IsKey key
      → find k (store world r (split_key key).0 (split_key key).1 o).selections ≡ (
          if str_eq key k
          then elim o as (λ x. Option (Selection L)) [
            | none ↦ find k r.selections
            | some s ↦ some s
          ]
          else find k r.selections)
  unfolding update
  find-store k key r none h = ground arith
  find-store k key r (some s) h = rw h (find-put k key s r.selections)

  find-reconcile_each :
      (k : String) (olds : List (String × Selection L)) (r : Selector L)
      → IsCache olds
      → find k (reconcile_each world nss olds r).selections
        ≡ expected (find k olds) (find k r.selections)
  unfolding reconcile_each
  find-reconcile_each k [] r h = refl
  find-reconcile_each k ((key, old) ∷ olds) r (a, b, c) =
      rw
        (find-reconcile_each k olds
          (store world r (split_key key).0 (split_key key).1 (refreshed world nss old)) c)
        (rw (find-store k key r (refreshed world nss old) a) (elim (Bool-cases (str_eq key k)) [
          | inl same ↦ rw same (rw (at_same ((eq_iff key k).0 same)) refl)
          | inr other ↦ rw other refl
        ]))
    where
      at_same : key ≡ k → find k olds ≡ none
      at_same e = rw e at b

  some_found :
      (k : String) (xs : List (String × Selection L)) (old : Selection L)
      → find k xs ≡ some old
      → (length xs == 0) ≡ false
  some_found k [] old h = absurd (ground (arith, h))
  some_found k (x ∷ xs) old h = ground arith

  chosen :
      (o : Option (Selection L)) (old : Selection L)
      → elim o as (λ x. Option (Selection L)) [ none ↦ some old | some s ↦ some s ]
        ≡ some (or_old old o)
  chosen none old = refl
  chosen (some s) old = refl

  find-reconcile :
      (r : Selector L) (k : String) (old : Selection L)
      → IsCache r.selections
      → world.list (λ l. true) ≡ ok nss
      → find k r.selections ≡ some old
      → find k (reconcile world r).0.selections ≡ some (fresh old)
  unfolding reconcile reconcile_listed
  find-reconcile r k old c listed h =
      rw (some_found k r.selections old h, reconcile)
        (rw listed (
          rw (find-reconcile_each k r.selections r c)
            (rw h (chosen (refreshed world nss old) old))))

  refreshed_eq :
      (old : Selection L) (found : Option (List String) × Option String)
      → filter world nss old.target ≡ found
      → refreshed world nss old ≡ refreshed_as world old found
  unfolding refreshed
  refreshed_eq old found h = ap (refreshed_as world old) h

  -- The selection is up to date with what its target selects now, and says so if that is not what
  -- it selected before.
  abbrev pub IsCurrent : Selection L → Option (List String) → Selection L → Type 0
  IsCurrent old found s =
      (s.target ≡ old.target)
      × (s.namespaces ≡ found)
      × ((s.has_update ≡ true) ⊎ (old.namespaces ≡ found))

  fresh-IsCurrent :
      (old : Selection L) (found : Option (List String))
      → filter world nss old.target ≡ (found, none)
      → IsCurrent old found (fresh old)
  fresh-IsCurrent old found h = elim (Bool-cases (same_names found old.namespaces)) [
    | inl same ↦
        let e = same_names_sound found old.namespaces same in
        rw (refreshed_eq old _ h) (rw same (refl, sym e, inr (sym e)))
    | inr other ↦ rw (refreshed_eq old _ h) (rw other (refl, refl, inl refl))
  ]

  -- In a reachable state, where the namespaces can be listed and the target of a cached selection
  -- filters them without an error, a reconciliation leaves the selection with the namespaces that
  -- the target selects now, and marks it as updated unless they are the ones it had.
  pub reconcile-IsCurrent :
      (r : Selector L) (k : String) (old : Selection L) (found : Option (List String))
      → Reachable L Labels r
      → world.list (λ l. true) ≡ ok nss
      → find k r.selections ≡ some old
      → filter world nss old.target ≡ (found, none)
      → (s : Selection L) × (find k (reconcile world r).0.selections ≡ some s)
        × IsCurrent old found s
  reconcile-IsCurrent r k old found reached listed h e = (
    fresh old,
    find-reconcile r k old (Reachable-IsCache r reached) listed h,
    fresh-IsCurrent old found e,
  )

  -- In a reachable state, if the target of a cached selection without an error now filters the
  -- namespaces with an error, one reconciliation marks the selection as updated, and a second one
  -- under the same conditions removes the mark although nobody read the selection in between.
  pub reconcile-forgets :
      (r : Selector L) (n m e : String) (old : Selection L) (found : Option (List String))
      → Reachable L Labels r
      → world.list (λ l. true) ≡ ok nss
      → find (get_key n m) r.selections ≡ some old
      → old.err ≡ none
      → filter world nss old.target ≡ (found, some e)
      → (has_update (reconcile world r).0 n m ≡ true)
        × (has_update (reconcile world (reconcile world r).0).0 n m ≡ false)
  unfolding has_update
  reconcile-forgets r n m e old found reached listed h clean f =
      let once = find-reconcile r (get_key n m) old (Reachable-IsCache r reached) listed h in
      let first : fresh old ≡ selection_of world old.target true (found, some e) =
        rw (refreshed_eq old _ f) (rw clean refl) in
      let twice =
        find-reconcile (reconcile world r).0 (get_key n m) (fresh old)
          (Reachable-IsCache _ (reconciled world reached)) listed once in
      let second : fresh (selection_of world old.target true (found, some e))
          ≡ selection_of world old.target false (found, some e) =
        rw (refreshed_eq (selection_of world old.target true (found, some e)) _ f) refl in
      (rw (once, has_update) (rw first refl), rw (twice, has_update) (rw first (rw second refl)))
