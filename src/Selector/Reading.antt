-- ===== src/Selector/Reading.antt =====
-- What `Get` returns and what it leaves in the cache.
use config_policy_controller.Prelude.Assoc.{find, find-put}
use config_policy_controller.Prelude.{
  String, ◌≡◌, refl, Bool, false, none, some, List, keep, eq_refl, Bool-cases, inl, inr,
}
use config_policy_controller.Policy.{Target, is_empty}
use config_policy_controller.Selector.{
  get_key, Selector, update, World, ok, selector_of, filter, selection_of, get_listed, get_parsed,
  get_new, get_found, get,
}

module _ {L Labels : Type 0} (world : World L Labels) where
  module _ (nss : List (String × Labels)) where
    -- The listing of the namespaces of a selector gives those that it matches.
    abbrev pub IsListing : Type 0
    IsListing = (f : Labels → Bool) → world.list f ≡ ok (keep (λ (x : String × Labels). f x.1) nss)

    read_new :
        (r : Selector L) (n m : String) (t : Target L) (f : Labels → Bool)
        → IsListing
        → selector_of world t ≡ ok f
        → get_new world r n m t ≡ (
          update world.has_channel r n m (selection_of world t false (filter world nss t)),
          filter world nss t,
        )
    unfolding get_new get_parsed get_listed filter
    read_new r n m t f listing parsed = elim (Bool-cases (is_empty t)) [
      | inl e ↦ rw (e, get_new, filter) refl
      | inr e ↦ rw (e, get_new, filter) (rw parsed (rw (listing f, get_parsed) refl))
    ]

    -- Where there is no selection for the key, and the target's selector can be parsed, `Get`
    -- returns what `filter` makes of all namespaces, and keeps that without a mark, if listing by a
    -- selector gives the namespaces that it matches.
    pub get-filter :
        (r : Selector L) (n m : String) (t : Target L) (f : Labels → Bool)
        → IsListing
        → find (get_key n m) r.selections ≡ none
        → selector_of world t ≡ ok f
        → ((get world r n m t).1 ≡ filter world nss t)
          × (find (get_key n m) (get world r n m t).0.selections
              ≡ some (selection_of world t false (filter world nss t)))
    unfolding get get_found update
    get-filter r n m t f listing new parsed =
        rw (new, get)
          (rw (read_new r n m t f listing parsed) (
            refl,
            rw (find-put (get_key n m) (get_key n m) _ r.selections)
                (rw (eq_refl (get_key n m)) refl),
          ))
