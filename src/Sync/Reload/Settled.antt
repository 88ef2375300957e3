-- ===== src/Sync/Reload/Settled.antt =====
-- The checks behind the loop of `LoadState` pass on the tables of a sound engine and leave the
-- cursors as they are. components/note4_companion/note4_sync_engine.cc.
use zectrix_note4_platform.Base.{
  All, All-map, Bool-cases, List, [], ap, arith, false, get_elem?, get_or, inl, inr, leb, none,
  refl, replicate, set, set-get_or, some, suc, sym, true, zero, ℕ, ◌++◌, ◌<◌, ◌∙◌, ◌∷◌, ◌≡◌,
}
use zectrix_note4_platform.Sync.Table.{find, index_of, Keyed, holds, slot, Unique, find-index}
use zectrix_note4_platform.Sync.State.{DurableEntry, CursorEntry, blank_cursor, by_cursor}
use zectrix_note4_platform.Sync.Load.{reserve_keys, are_current}
use zectrix_note4_platform.Sync.Reload.Compact.{kept}

get_or_elem {ℓ} :
    {A : Type ℓ} (xs : List A) (i : ℕ) (x d : A) → get_elem? xs i ≡ some x → get_or xs i d ≡ x
get_or_elem [] i x d h = absurd (cc)
get_or_elem (y ∷ ys) zero x d h = ground arith
get_or_elem (y ∷ ys) (suc i) x d h = get_or_elem ys i x d h

-- A cursor that stands behind a pending value, and one that has applied a received value.
abbrev pub IsBehind : List CursorEntry → DurableEntry → Type 0
IsBehind cursors x =
    (c : CursorEntry) × (find by_cursor x.key cursors ≡ some c)
    × (c.outbound_acknowledged < x.revision)

abbrev pub IsApplied : List CursorEntry → DurableEntry → Type 0
IsApplied cursors x =
    (c : CursorEntry) × (find by_cursor x.key cursors ≡ some c) × (c.inbound_applied ≡ x.revision)

slot_index :
    (k i : ℕ) (cursors : List CursorEntry)
    → index_of (holds by_cursor k) cursors ≡ some i
    → slot by_cursor k cursors ≡ some i
unfolding slot
slot_index k i cursors h = rw (slot, h) refl

unchanged :
    (c : CursorEntry) (k : ℕ) → holds by_cursor k c ≡ true → record c { valid = true; key = k } ≡ c
unchanged c k h = ground arith

pub reserve_keys-IsBehind :
    (xs : List DurableEntry) (cursors : List CursorEntry)
    → All (λ x. x.valid ≡ true → IsBehind cursors x) xs
    → reserve_keys xs cursors ≡ some cursors
unfolding reserve_keys
reserve_keys-IsBehind [] cursors h = refl
reserve_keys-IsBehind (x ∷ xs) cursors h = elim (Bool-cases x.valid) [
  | inr empty ↦ rw empty (reserve_keys-IsBehind xs cursors h.1)
  | inl taken ↦
      let (c, stands, behind) = h.0 taken in
      let (i, e, g, v) = find-index by_cursor x.key cursors c stands in
      let held : get_or cursors i blank_cursor ≡ c = get_or_elem cursors i c blank_cursor g in
      let above : leb x.revision c.outbound_acknowledged ≡ false = ground arith in
      let same : set cursors i c ≡ cursors =
        ap (set cursors i) (sym held) ∙ set-get_or cursors i blank_cursor in
      rw (taken, slot_index x.key i cursors e, held, above, held, unchanged c x.key v, same)
        (reserve_keys-IsBehind xs cursors h.1)
]

pub are_current-IsApplied :
    (xs : List DurableEntry) (cursors : List CursorEntry)
    → All (λ x. x.valid ≡ true → IsApplied cursors x) xs
    → are_current xs cursors ≡ true
unfolding are_current
are_current-IsApplied [] cursors h = refl
are_current-IsApplied (x ∷ xs) cursors h = elim (Bool-cases x.valid) [
  | inr empty ↦ rw empty (are_current-IsApplied xs cursors h.1)
  | inl taken ↦
      let (c, stands, same) = h.0 taken in
      rw (taken, stands) (ground (arith, same, are_current-IsApplied xs cursors h.1))
]

module _ {A : Type 0} (t : Keyed A) where
  open t use {key, valid}

  still_finds :
      (x : A) (xs : List A) (y : A)
      → (valid x ≡ true → find t (key x) xs ≡ none)
      → find t (key y) xs ≡ some y
      → find t (key y) (x ∷ xs) ≡ some y
  unfolding find
  still_finds x xs y u h = elim (Bool-cases (holds t (key y) x)) [
    | inr miss ↦ rw miss h
    | inl hit ↦
        let v : valid x ≡ true = ground arith in
        let same : key x ≡ key y = ground arith in
        let gone : find t (key y) xs ≡ none = rw same at (u v) in absurd (cc)
  ]

  -- With unique keys every valid entry is the one found for its key.
  pub Unique-finds :
      (xs : List A) → Unique t xs → All (λ x. valid x ≡ true → find t (key x) xs ≡ some x) xs
  unfolding find
  Unique-finds [] u = tt
  Unique-finds (x ∷ xs) u = (
    (λ v. ground arith),
    All-map (λ y. valid y ≡ true → find t (key y) xs ≡ some y)
        (λ y. valid y ≡ true → find t (key y) (x ∷ xs) ≡ some y) xs
        (λ y h v. still_finds x xs y u.0 (h v)) (Unique-finds xs u.1),
  )

  pub All-compact :
      (P : A → Type 0) (xs : List A) (blank : A) (n : ℕ)
      → valid blank ≡ false
      → All (λ x. valid x ≡ true → P x) xs
      → All (λ x. valid x ≡ true → P x) (kept t xs ++ replicate n blank)
  All-compact P [] blank n b h = blanks n
    where
      blanks : (n : ℕ) → All (λ x. valid x ≡ true → P x) (replicate n blank)
      blanks zero = tt
      blanks (suc n) = ((λ v. absurd (cc)), blanks n)
  All-compact P (x ∷ xs) blank n b h = elim (Bool-cases (valid x)) [
    | inl taken ↦ rw taken (h.0, All-compact P xs blank n b h.1)
    | inr empty ↦ rw empty (All-compact P xs blank n b h.1)
  ]
