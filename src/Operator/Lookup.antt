-- ===== src/Operator/Lookup.antt =====
-- The conditions of a status as a map from their types.
use config_policy_controller.Prelude.{
  ℕ, String, ◌≡◌, refl, ◌∙◌, ap, Bool, false, Option, none, some, List, [], ◌∷◌, All, arith, eq_iff,
  if_both, if_either, subst, if◌then◌else◌,
}
use mathlib.Core.Option
use config_policy_controller.Prelude.Text.{str_eq}
use config_policy_controller.Prelude.Sort.{insert_by, sort_by, All-insert_by, All-sort_by}
use config_policy_controller.Policy.{Condition}
use config_policy_controller.Operator.{shifted, get_condition}
use config_policy_controller.Operator.Status.{put_at, place}

-- The condition of a type.
abbrev pub cond_at : List Condition → String → Option Condition
cond_at [] t = none
cond_at (c ∷ cs) t = let rest = cond_at cs t in if str_eq c.kind t then some c else rest

pub get_condition-cond_at :
    (cs : List Condition) (t : String) → Option.map (λ x. x.1) (get_condition cs t) ≡ cond_at cs t
unfolding get_condition
get_condition-cond_at [] t = refl
get_condition-cond_at (c ∷ cs) t = ground (arith, get_condition-cond_at cs t)

-- Putting a condition into a list whose first one is, or is not, of its type.
put_at-shifted :
    (o : Option (ℕ × Condition)) (c d : Condition) (ds : List Condition)
    → put_at (shifted o) c (d ∷ ds) ≡ d ∷ put_at o c ds
put_at-shifted none c d ds = refl
put_at-shifted (some (i, x)) c d ds = refl

place_cons :
    (c d : Condition) (ds : List Condition)
    → place c (d ∷ ds) ≡ (if str_eq d.kind c.kind then c ∷ ds else d ∷ place c ds)
unfolding place get_condition
place_cons c d ds =
    if_either
      (λ (o : Option (ℕ × Condition)).
        put_at o c (d ∷ ds) ≡ (if str_eq d.kind c.kind then c ∷ ds else d ∷ place c ds))
      (str_eq d.kind c.kind) (λ same. rw same refl)
      (λ other. rw other (put_at-shifted (get_condition ds c.kind) c d ds))

pub cond_at-place :
    (c : Condition) (cs : List Condition) (t : String)
    → cond_at (place c cs) t ≡ (if str_eq c.kind t then some c else cond_at cs t)
unfolding place
cond_at-place c [] t = refl
cond_at-place c (d ∷ ds) t =
    rw (place_cons c d ds)
      (ground (arith, cond_at-place c ds t, eq_iff d.kind c.kind, eq_iff d.kind t, eq_iff c.kind t))

module _ {κ} (P : Condition → Type κ) where
  All-place : (c : Condition) (cs : List Condition) → P c → All P cs → All P (place c cs)
  unfolding place
  All-place c [] p h = (p, tt)
  All-place c (d ∷ ds) p (q, h) =
      rw (place_cons c d ds) (if_both (All P) (str_eq d.kind c.kind) (p, h) (q, All-place c ds p h))

-- No condition has the type.
abbrev pub IsFresh : String → List Condition → Type 0
IsFresh t cs = All (λ (c : Condition). str_eq c.kind t ≡ false) cs

-- No two conditions have the same type.
abbrev pub IsUnique : List Condition → Type 0
IsUnique [] = Unit
IsUnique (c ∷ cs) = IsFresh c.kind cs × IsUnique cs

pub place-IsUnique : (c : Condition) (cs : List Condition) → IsUnique cs → IsUnique (place c cs)
unfolding place
place-IsUnique c [] u = (tt, tt)
place-IsUnique c (d ∷ ds) (f, u) = rw (place_cons c d ds) (
    if_either IsUnique (str_eq d.kind c.kind)
      (λ same. (subst (λ t. IsFresh t ds) ((eq_iff d.kind c.kind).0 same) f, u))
      (λ other.
        let apart : str_eq c.kind d.kind ≡ false =
          ground (arith, other, eq_iff c.kind d.kind, eq_iff d.kind c.kind) in
        (
          All-place (λ (x : Condition). str_eq x.kind d.kind ≡ false) c ds apart f,
          place-IsUnique c ds u,
        )))

module _ (less : Condition → Condition → Bool) where
  insert_by-IsUnique :
      (c : Condition) (cs : List Condition)
      → IsFresh c.kind cs
      → IsUnique cs
      → IsUnique (insert_by less c cs)
  unfolding insert_by
  insert_by-IsUnique c [] f u = (tt, tt)
  insert_by-IsUnique c (d ∷ ds) (g, f) (h, u) =
      let apart : str_eq c.kind d.kind ≡ false =
        ground (arith, g, eq_iff c.kind d.kind, eq_iff d.kind c.kind) in
      if_both IsUnique (less d c)
        (
          All-insert_by less (λ (x : Condition). str_eq x.kind d.kind ≡ false) c ds apart h,
          insert_by-IsUnique c ds f u,
        )
        ((g, f), (h, u))

  cond_at-insert_by :
      (c : Condition) (cs : List Condition) (t : String)
      → IsFresh c.kind cs
      → cond_at (insert_by less c cs) t ≡ cond_at (c ∷ cs) t
  unfolding insert_by
  cond_at-insert_by c [] t f = refl
  cond_at-insert_by c (d ∷ ds) t (g, f) =
      let ih = cond_at-insert_by c ds t f in
      if_both (λ x. cond_at x t ≡ cond_at (c ∷ d ∷ ds) t) (less d c)
        (ground (arith, ih, g, eq_iff d.kind c.kind, eq_iff d.kind t, eq_iff c.kind t)) refl

  pub sort_by-IsUnique : (cs : List Condition) → IsUnique cs → IsUnique (sort_by less cs)
  unfolding sort_by
  sort_by-IsUnique [] u = tt
  sort_by-IsUnique (c ∷ cs) (f, u) =
      insert_by-IsUnique c (sort_by less cs)
        (All-sort_by less (λ (x : Condition). str_eq x.kind c.kind ≡ false) cs f)
        (sort_by-IsUnique cs u)

  pub cond_at-sort_by :
      (cs : List Condition) (t : String) → IsUnique cs → cond_at (sort_by less cs) t ≡ cond_at cs t
  unfolding sort_by
  cond_at-sort_by [] t u = refl
  cond_at-sort_by (c ∷ cs) t (f, u) =
      let ih = cond_at-sort_by cs t u in
      cond_at-insert_by c (sort_by less cs) t
        (All-sort_by less (λ (x : Condition). str_eq x.kind c.kind ≡ false) cs f)
      ∙ ap (λ o. if str_eq c.kind t then some c else o) ih
