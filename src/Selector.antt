-- ===== src/Selector.antt =====
-- The cache of namespace selections: `NamespaceSelectorReconciler` of
-- pkg/common/namespace_selection.go, with
-- `Target.String` of api/v1/configurationpolicy_types.go. The matching of one pattern
-- (`filepath.Match`), label selectors and the listing of the namespaces are parameters. The locks
-- are left out: an operation is one step.
pub mod Cache
pub mod Reachable
pub mod Refresh
pub mod Reading
pub mod Tests
use Prim.Native.Char.{code}
use Prim.Native.String
use config_policy_controller.Prelude.{
  ℕ, String, Bool, true, false, not, ◌&&◌, ◌||◌, Option, none, some, List, [], ◌∷◌, ◌++◌, map, keep,
  length, is_some, ◌==◌, if◌then◌else◌,
}
use config_policy_controller.Prelude.Text.{str_eq, str_ltb, ◌<>◌, join}
use config_policy_controller.Prelude.Sort.{sort_by}
use config_policy_controller.Prelude.Assoc.{find, put, remove}
use config_policy_controller.Policy.{Target, is_empty}
use config_policy_controller.Patterns.{matches}

abbrev print_list : List String → String
print_list xs = "[" <> join " " xs <> "]"

-- `getKey`
unfoldable pub get_key : String → String → String
get_key namespace name = namespace <> "/" <> name

-- The text before the first slash and the text after it.
abbrev pub cut : String → Option (String × String)
cut String.[] = none
cut (String.◌∷◌ c s) =
    let rest = cut s in
    if code c == b'/'
    then some ("", s)
    else elim rest [ none ↦ none | some (before, after) ↦ some (String.◌∷◌ c before, after) ]

-- `splitKey`
unfoldable pub split_key : String → String × String
split_key key = elim (cut key) [ none ↦ ("", key) | some parts ↦ parts ]

-- `slices.Sort`
abbrev pub sort_names : List String → List String
sort_names = sort_by str_ltb

-- `reflect.DeepEqual` on lists of names.
abbrev pub all_equal : List String → List String → Bool
all_equal [] [] = true
all_equal (n ∷ ns) (m ∷ ms) = str_eq n m && all_equal ns ms
all_equal _ _ = false

abbrev pub same_names : Option (List String) → Option (List String) → Bool
same_names none none = true
same_names (some ns) (some ms) = all_equal ns ms
same_names _ _ = false

-- `namespaceSelection`; the nil slice of namespaces is `none`.
pub record Selection (L : Type 0) : Type 0 where
  pub target : Target L
  pub namespaces : Option (List String)
  pub has_update : Bool
  pub err : Option String

-- The map of the selections and the events sent so far.
pub record Selector (L : Type 0) : Type 0 where
  pub selections : List (String × Selection L)
  pub sent : List (String × String)

module _ {L : Type 0} where
  -- `HasUpdate`; a missing selection has none.
  unfoldable pub has_update : Selector L → String → String → Bool
  has_update r namespace name = elim (find (get_key namespace name) r.selections) [
    | none ↦ false
    | some s ↦ s.has_update
  ]

  -- `Stop`
  unfoldable pub stop : Selector L → String → String → Selector L
  stop r namespace name = record r { selections = remove (get_key namespace name) (r.selections) }

  -- `update`; an event is sent if there is a channel.
  unfoldable pub update : Bool → Selector L → String → String → Selection L → Selector L
  unfolding get_key
  update has_channel r namespace name sel = record r {
    selections = put (get_key namespace name) sel (r.selections);
    sent = if has_channel then r.sent ++ (namespace, name) ∷ [] else r.sent;
  }

-- A value or the text of an error.
pub data Answer {ℓ} (A : Type ℓ) : Type ℓ where
  ok : A → Answer A
  error : String → Answer A

-- What the reconciler reads: the printing and the parsing of label selectors, the matching of a
-- pattern, and the lists of the namespaces that a selector matches.
pub record World (L Labels : Type 0) : Type 0 where
  pub print_labels : L → String
  pub print_expressions : L → String
  pub parse_selector : L → Answer (Labels → Bool)
  pub match_path : String → String → Option Bool
  pub has_channel : Bool
  pub list : (Labels → Bool) → Answer (List (String × Labels))

module _ {L Labels : Type 0} (world : World L Labels) where
  -- `Target.String`
  unfoldable pub target_string : Target L → String
  target_string t =
      let selector : String × String = elim (t.label_selector) [
        | none ↦ ("<nil>", "<nil>")
        | some l ↦ (world.print_labels l, world.print_expressions l)
      ] in
      "{include:"
      <> print_list t.includes
      <> ",exclude:"
      <> print_list t.excludes
      <> ",matchLabels:"
      <> selector.0
      <> ",matchExpressions:"
      <> selector.1
      <> "}"

  -- The selector of a target; everything if there is none.
  abbrev pub selector_of : Target L → Answer (Labels → Bool)
  selector_of t = elim (t.label_selector) [
    | none ↦ ok (λ l. true)
    | some l ↦ world.parse_selector l
  ]

  abbrev pub bad_selector : String → String
  bad_selector e = "error parsing namespace LabelSelector: " <> e

  abbrev pub names : List (String × Labels) → List String
  names nss = map (λ (n : String × Labels). n.0) nss

  abbrev pub match_sorted : List String → Target L → List String × Option String
  match_sorted ns t =
      let found = matches world.match_path ns t.includes t.excludes in (sort_names found.0, found.1)

  -- `filter`
  unfoldable pub filter : List (String × Labels) → Target L → Option (List String) × Option String
  unfolding matches is_empty
  filter all_namespaces t = if is_empty t then (some [], none) else elim (selector_of t) [
    | error e ↦ (none, some (bad_selector e))
    | ok selects ↦
        let found =
          match_sorted (names (keep (λ (n : String × Labels). selects n.1) all_namespaces)) t in
        (some found.0, found.1)
  ]

  abbrev pub selection_of : Target L → Bool → Option (List String) × Option String → Selection L
  selection_of t updated found = record {
    target = t;
    namespaces = found.0;
    has_update = updated;
    err = found.1;
  }

  abbrev pub Got : Type 0
  Got = Selector L × (Option (List String) × Option String)

  -- `Get` with the listed namespaces.
  unfoldable pub get_listed :
      Selector L → String → String → Target L → Answer (List (String × Labels)) → Got
  unfolding update matches
  get_listed r namespace name t (error e) = (r, (none, some e))
  get_listed r namespace name t (ok listed) =
      let selected = match_sorted (names listed) t in
      let found : Option (List String) × Option String = (some selected.0, selected.1) in
      (update world.has_channel r namespace name (selection_of t false found), found)

  -- `Get` with the parsed selector. The error that it returns is wrapped twice, the cached one once.
  unfoldable pub get_parsed : Selector L → String → String → Target L → Answer (Labels → Bool) → Got
  unfolding get_listed
  get_parsed r namespace name t (error e) = (
    update world.has_channel r namespace name
        (selection_of t false (some [], some (bad_selector e))),
    (some [], some (bad_selector (bad_selector e))),
  )
  get_parsed r namespace name t (ok selects) = get_listed r namespace name t (world.list selects)

  -- `Get` without a cached selection for the target.
  unfoldable pub get_new : Selector L → String → String → Target L → Got
  unfolding get_parsed is_empty
  get_new r namespace name t =
      if is_empty t
      then (
        update world.has_channel r namespace name (selection_of t false (some [], none)),
        (some [], none),
      )
      else get_parsed r namespace name t (selector_of t)

  -- `Get` with what is cached.
  unfoldable pub get_found : Selector L → String → String → Target L → Option (Selection L) → Got
  unfolding get_new target_string get_key
  get_found r namespace name t none = get_new r namespace name t
  get_found r namespace name t (some s) =
      if str_eq (target_string s.target) (target_string t)
      then (
        record r {
          selections =
              put (get_key namespace name) (record s { has_update = false }) (r.selections);
        },
        (s.namespaces, s.err),
      )
      else get_new r namespace name t

  -- `Get`: the reconciler after it, the namespaces and the error.
  unfoldable pub get : Selector L → String → String → Target L → Got
  unfolding get_found
  get r namespace name t = get_found r namespace name t (find (get_key namespace name) r.selections)

  -- The update of one selection, if the reconciliation makes one, for what `filter` found.
  abbrev pub refreshed_as :
      Selection L → Option (List String) × Option String → Option (Selection L)
  refreshed_as old (ns, some e) =
      some (selection_of old.target (not (is_some old.err)) (ns, some e))
  refreshed_as old (ns, none) =
      if not (same_names ns old.namespaces)
      then some (selection_of old.target true (ns, none))
      else none

  unfoldable pub refreshed : List (String × Labels) → Selection L → Option (Selection L)
  unfolding filter
  refreshed all_namespaces old = refreshed_as old (filter all_namespaces old.target)

  abbrev pub store : Selector L → String → String → Option (Selection L) → Selector L
  store r namespace name none = r
  store r namespace name (some s) = update world.has_channel r namespace name s

  -- The loop of `Reconcile` over the selections read at its start.
  unfoldable pub reconcile_each :
      List (String × Labels) → List (String × Selection L) → Selector L → Selector L
  unfolding refreshed update split_key
  reconcile_each all_namespaces [] r = r
  reconcile_each all_namespaces ((key, old) ∷ olds) r =
      let parts = split_key key in
      reconcile_each all_namespaces olds (store r parts.0 parts.1 (refreshed all_namespaces old))

  unfoldable pub reconcile_listed :
      Selector L → Answer (List (String × Labels)) → Selector L × Option String
  unfolding reconcile_each
  reconcile_listed r (error e) = (r, some e)
  reconcile_listed r (ok all_namespaces) = (reconcile_each all_namespaces r.selections r, none)

  -- `Reconcile`: the reconciler after it, and the error.
  unfoldable pub reconcile : Selector L → Selector L × Option String
  unfolding reconcile_listed
  reconcile r =
      if length r.selections == 0 then (r, none) else reconcile_listed r (world.list (λ l. true))
