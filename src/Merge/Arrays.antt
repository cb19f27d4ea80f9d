-- ===== src/Merge/Arrays.antt =====
-- What `mergeArrays` returns: the template's positions, and what it appends.
use config_policy_controller.Prelude.{
  ℕ, zero, suc, ◌+◌, ◌-◌, ◌<◌, String, ◌≡◌, refl, ◌∙◌, Bool, true, false, not, ◌&&◌, Option, ◌⊎◌,
  inl, inr, List, [], ◌∷◌, ◌++◌, any, All, All-append, All-mono, In, In-All, length, length-append,
  length-replicate, replicate, arith, eq_refl, Bool-cases,
}
use config_policy_controller.Prelude.Text.{str_eq}
use config_policy_controller.Policy.{ComplianceType, is_must_only_have}
use config_policy_controller.Json.{Value, Items, nil, cons, items}
use config_policy_controller.Json.Print.{sprint, sprint_items}
use config_policy_controller.Merge.{
  Slot, slots_of, currents, occurrences, fill, Progress, merge_item, start, merge_items, attempt,
  merge_arrays,
}
use config_policy_controller.Merge.Filling.{
  originals, items-of_list, originals-slots_of, unseen, unseen-cons, unseen_none,
  length-sprint_items, originals-fill, written_count, stands, unseen_all, Occurs, items-Occurs,
  visited, fill-All, fill-written_count, fill_le, fill-Unmatched,
}

module _ {Quantity : Type 0} (parse_quantity : String → Option Quantity)
    (quantity_equal : Quantity → Quantity → Bool) (ctype : ComplianceType)
    (zero_equals_nil : Bool) where
  abbrev try : Value → Value → Value × Bool
  try = attempt parse_quantity quantity_equal ctype zero_equals_nil

  -- A position holds the template's value, or what came of merging it with an existing value that
  -- it matched.
  abbrev pub IsFrom : List Value → Slot → Type 0
  IsFrom es s =
      (s.written ≡ false) × (s.current ≡ s.original)
      ⊎ (s.written ≡ true) × ((v : Value) × In v es × (try v s.original ≡ (s.current, true)))

  visited-IsFrom :
      (es : List Value) (v : Value)
      → In v es
      → (s : Slot) → IsFrom es s
      → IsFrom es (visited (try v) s)
  unfolding visited
  visited-IsFrom es v here s h = elim (Bool-cases (not s.written && (try v s.original).1)) [
    | inl hit ↦
        let matched : (try v s.original).1 ≡ true = ground arith in
        rw hit (inr (refl, (v, here, λ i. ((try v s.original).0, matched i))))
    | inr miss ↦ rw miss h
  ]

  -- No position that nothing was merged into matches the value.
  abbrev pub IsLeft : List Slot → Value → Type 0
  IsLeft ss v = All (λ (s : Slot). s.written ≡ false → (try v s.original).1 ≡ false) ss

  visited-IsLeft :
      (v w : Value) (s : Slot)
      → (s.written ≡ false → (try w s.original).1 ≡ false)
      → (visited (try v) s).written ≡ false
      → (try w (visited (try v) s).original).1 ≡ false
  unfolding visited
  visited-IsLeft v w s h = elim (Bool-cases (not s.written && (try v s.original).1)) [
    | inl hit ↦ rw hit (λ k. absurd (ground (arith, k)))
    | inr miss ↦ rw miss h
  ]

  -- What holds of the progress of the outer loop over the existing values `es`.
  record Keeps (desired es : List Value) (keys : List String) (p : Progress) : Type 0 where
    same : originals p.slots ≡ desired
    from : All (IsFrom es) p.slots
    old : All (λ v. In v es) p.extra
    left : All (IsLeft p.slots) p.extra
    exact : written_count p.slots + length p.extra + unseen p.seen keys ≡ length keys

  module _ (desired es : List Value) (keys : List String) where
    All-replicate : (P : Value → Type 0) (n : ℕ) (v : Value) → P v → All P (replicate n v)
    All-replicate P zero v h = tt
    All-replicate P (suc n) v h = (h, All-replicate P n v h)

    missing-IsLeft :
        (v : Value) (needed c : ℕ) (ss : List Slot)
        → (c < needed → IsLeft ss v)
        → (n : ℕ) → n ≡ needed - c
        → All (IsLeft ss) (replicate n v)
    missing-IsLeft v needed c ss h zero e = tt
    missing-IsLeft v needed c ss h (suc n) e =
        All-replicate (IsLeft ss) (suc n) v (h (omega (arith, e)))

    merge_item-Keeps :
        (v : Value) (p : Progress)
        → In v es
        → Occurs keys v
        → Keeps desired es keys p
        → Keeps desired es keys (merge_item (try v) keys v p)
    unfolding merge_item
    merge_item-Keeps v p here occurs h =
        let needed = occurrences (sprint v) keys in
        let filled = fill (try v) needed 0 p.slots in
        let more = replicate (needed - filled.1) v in
        elim (Bool-cases (any (λ (k : String). str_eq k (sprint v)) p.seen)) [
          | inl old ↦ rw old h
          | inr new ↦ rw new (record {
            same = originals-fill (try v) _ 0 p.slots ∙ h.same;
            from = fill-All (try v) (IsFrom es) (visited-IsFrom es v here) _ 0 p.slots h.from;
            old = All-append _ p.extra _ h.old (All-replicate _ _ v here);
            left =
                All-append _ p.extra more
                  (All-mono
                    (λ w kept. fill-All (try v) _ (visited-IsLeft v w) needed 0 p.slots kept)
                    p.extra h.left)
                  (missing-IsLeft v needed filled.1 filled.0
                    (fill-Unmatched (try v) needed 0 p.slots occurs) (needed - filled.1) refl);
            exact = omega (
              arith,
              length-append p.extra more,
              length-replicate (needed - filled.1) v,
              unseen-cons (sprint v) p.seen keys new,
              fill-written_count (try v) needed 0 p.slots,
              fill_le (try v) needed 0 p.slots occurs,
              h.exact,
            );
          })
        ]

    merge_items-Keeps :
        (vs : Items) (p : Progress)
        → All (λ v. In v es) (items vs)
        → All (Occurs keys) (items vs)
        → Keeps desired es keys p
        → Keeps desired es keys
            (merge_items parse_quantity quantity_equal ctype zero_equals_nil vs keys p)
    unfolding merge_items
    merge_items-Keeps nil p i o h = h
    merge_items-Keeps (cons v vs) p (here, i) (occurs, o) h =
        merge_items-Keeps vs (merge_item (try v) keys v p) i o (merge_item-Keeps v p here occurs h)

    -- Every value is seen in the end.
    merge_item-stands :
        (v : Value) (p : Progress) → stands (merge_item (try v) keys v p).seen (sprint v) ≡ true
    unfolding merge_item
    merge_item-stands v p = ground (arith, eq_refl (sprint v))

    merge_item_keeps :
        (v : Value) (p : Progress) (k : String)
        → stands p.seen k ≡ true
        → stands (merge_item (try v) keys v p).seen k ≡ true
    unfolding merge_item
    merge_item_keeps v p k h = ground (arith, h)

    merge_items_keep :
        (vs : Items) (p : Progress) (k : String)
        → stands p.seen k ≡ true
        → stands (merge_items parse_quantity quantity_equal ctype zero_equals_nil vs keys p).seen k
          ≡ true
    unfolding merge_items
    merge_items_keep nil p k h = h
    merge_items_keep (cons v vs) p k h =
        merge_items_keep vs (merge_item (try v) keys v p) k (merge_item_keeps v p k h)

    merge_items-stands :
        (vs : Items) (p : Progress)
        → All
            (λ k.
              stands
                (merge_items parse_quantity quantity_equal ctype zero_equals_nil vs keys p).seen
                k
              ≡ true)
            (sprint_items vs)
    unfolding merge_items sprint_items
    merge_items-stands nil p = tt
    merge_items-stands (cons v vs) p = (
      merge_items_keep vs (merge_item (try v) keys v p) (sprint v) (merge_item-stands v p),
      merge_items-stands vs (merge_item (try v) keys v p),
    )

  slots_of-IsFrom : (es vs : List Value) → All (IsFrom es) (slots_of vs)
  slots_of-IsFrom es [] = tt
  slots_of-IsFrom es (v ∷ vs) = (inl (refl, refl), slots_of-IsFrom es vs)

  written_count-slots_of : (vs : List Value) → written_count (slots_of vs) ≡ 0
  written_count-slots_of [] = refl
  written_count-slots_of (v ∷ vs) = written_count-slots_of vs

  start-Keeps :
      (d : Items) (es : List Value) (keys : List String) → Keeps (items d) es keys (start d)
  start-Keeps d es keys = record {
    same = originals-slots_of (items d);
    from = slots_of-IsFrom es (items d);
    old = tt;
    left = tt;
    exact = omega (arith, unseen_none keys, written_count-slots_of (items d));
  }

  -- Unless the compliance type is `mustonlyhave`, the merged list has a position for each of the
  -- template's values, in their order, which holds that value, or what it became by being merged
  -- with an existing value that it matched. Behind them stand values of the existing list, which
  -- none of the positions that hold the template's value unmerged matches. Merged positions and
  -- values behind them together are as many as the existing list has values.
  pub merge_arrays_lem :
      (d e : Items)
      → is_must_only_have ctype ≡ false
      → (ss : List Slot) × (extra : List Value) × (items
            (merge_arrays parse_quantity quantity_equal ctype zero_equals_nil d e)
          ≡ currents ss ++ extra)
        × (originals ss ≡ items d)
        × All (IsFrom (items e)) ss
        × All (λ v. In v (items e)) extra
        × All (IsLeft ss) extra
        × (written_count ss + length extra ≡ length (items e))
  unfolding merge_arrays
  merge_arrays_lem d e not_only =
      let keys = sprint_items e in
      let p : Progress =
        merge_items parse_quantity quantity_equal ctype zero_equals_nil e keys (start d) in
      let h : Keeps (items d) (items e) keys p =
        merge_items-Keeps (items d) (items e) keys e (start d) (In-All (items e)) (items-Occurs e)
          (start-Keeps d (items e) keys) in
      let seen = merge_items-stands (items d) (items e) keys e (start d) in
      (
        p.slots,
        p.extra,
        rw not_only (items-of_list _),
        h.same,
        h.from,
        h.old,
        h.left,
        omega (arith, h.exact, unseen_all p.seen keys seen, length-sprint_items e),
      )
