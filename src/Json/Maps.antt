-- ===== src/Json/Maps.antt =====
-- The laws of maps as lists of fields.
use config_policy_controller.Prelude.{
  suc, String, ◌≡◌, ◌≢◌, refl, ◌≤◌, none, some, arith, eq_iff, eq_refl, Bool-cases, inl, inr,
  if◌then◌else◌,
}
use mathlib.Core.Path.{subst}
use config_policy_controller.Prelude.Text.{str_eq}
use config_policy_controller.Json.{Value, Fields, end, field, lookup, insert, delete, count}

pub lookup-insert :
    (key k : String) (v : Value) (fs : Fields)
    → lookup k (insert key v fs) ≡ (if str_eq key k then some v else lookup k fs)
lookup-insert key k v end = refl
lookup-insert key k v (field j w fs) =
    ground (arith, eq_iff key k, eq_iff j key, eq_iff j k, lookup-insert key k v fs)

pub lookup-delete :
    (key k : String) (fs : Fields)
    → lookup k (delete key fs) ≡ (if str_eq key k then none else lookup k fs)
lookup-delete key k end = ground arith
lookup-delete key k (field j w fs) =
    ground (arith, eq_iff key k, eq_iff j key, eq_iff j k, lookup-delete key k fs)

pub count-insert-le : (key : String) (v : Value) (fs : Fields) → count fs ≤ count (insert key v fs)
count-insert-le key v end = omega arith
count-insert-le key v (field j w fs) = ground (arith, count-insert-le key v fs)

-- No key stands twice, as in a Go map.
abbrev pub IsDistinct : Fields → Type 0
IsDistinct end = Unit
IsDistinct (field k v fs) = (lookup k fs ≡ none) × IsDistinct fs

pub insert-IsDistinct :
    (key : String) (v : Value) (fs : Fields) → IsDistinct fs → IsDistinct (insert key v fs)
insert-IsDistinct key v end h = (refl, tt)
insert-IsDistinct key v (field j w fs) (p, h) = elim (Bool-cases (str_eq j key)) [
  | inl same ↦ rw same (p, h)
  | inr other ↦ rw other (
    rw (lookup-insert key j v fs) (ground (arith, eq_iff key j, eq_iff j key)),
    insert-IsDistinct key v fs h,
  )
]

-- Every key of the first map is one of the second.
abbrev pub Covers : Fields → Fields → Type 0
Covers fs m = (k : String) → lookup k fs ≢ none → lookup k m ≢ none

count-delete-le : (key : String) (fs : Fields) → count (delete key fs) ≤ count fs
count-delete-le key end = omega arith
count-delete-le key (field k v fs) = ground (arith, count-delete-le key fs)

count-delete-lt :
    (key : String) (fs : Fields) → lookup key fs ≢ none → suc (count (delete key fs)) ≤ count fs
count-delete-lt key end h = absurd (h refl)
count-delete-lt key (field k v fs) h = elim (Bool-cases (str_eq k key)) [
  | inl same ↦ rw same (omega (arith, count-delete-le key fs))
  | inr other ↦ rw other (omega (arith, count-delete-lt key fs (rw other at h)))
]

-- A map with distinct keys is no longer than one that has all its keys.
pub count-Covers : (fs m : Fields) → IsDistinct fs → Covers fs m → count fs ≤ count m
count-Covers end m d c = omega arith
count-Covers (field k v fs) m (fresh, d) c = omega (
  arith,
  count-delete-lt k m (c k (rw (eq_refl k) (λ e. cc))),
  count-Covers fs (delete k m) d λ j h. rw (lookup-delete k j m) (elim (Bool-cases (str_eq k j)) [
    | inl same ↦ absurd (h (rw (← (eq_iff k j).0 same) fresh))
    | inr other ↦ rw other (c j (rw other h))
  ]),
)

module _ (P : String → Value → Type 0) where
  -- `P` holds of every field.
  abbrev pub AllFields : Fields → Type 0
  AllFields end = Unit
  AllFields (field k v fs) = P k v × AllFields fs

  pub AllFields-lookup :
      (fs : Fields) (k : String) (v : Value) → AllFields fs → lookup k fs ≡ some v → P k v
  AllFields-lookup end k v h e = cc
  AllFields-lookup (field j w fs) k v (p, h) e = elim (Bool-cases (str_eq j k)) [
    | inl same ↦
        let found : some w ≡ some v = rw same at e in
        let value : w ≡ v = cc in
        subst (λ x. P k x) value (subst (λ x. P x w) ((eq_iff j k).0 same) p)
    | inr other ↦ AllFields-lookup fs k v h (rw other at e)
  ]

  pub lookup-AllFields :
      (fs : Fields)
      → IsDistinct fs
      → ((k : String) (v : Value) → lookup k fs ≡ some v → P k v)
      → AllFields fs
  lookup-AllFields end d f = tt
  lookup-AllFields (field j w fs) (fresh, d) f = (
    f j w (rw (eq_refl j)),
    lookup-AllFields fs d (λ k v e. f k v (elim (Bool-cases (str_eq j k)) [
      | inl same ↦ let gone : lookup k fs ≡ none = rw (← (eq_iff j k).0 same) fresh in cc
      | inr other ↦ rw other e
    ])),
  )
