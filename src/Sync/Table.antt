-- ===== src/Sync/Table.antt =====
-- The fixed arrays of the sync engine: slots with a key and a `valid` flag, found by a scan. The
-- outbox, the inbox, the cursors and the command results of
-- components/note4_companion/note4_sync_engine.cc are such tables.
use zectrix_note4_platform.Base.{
  All, Bool, Bool-cases, List, Option, Option-cases, [], arith, false, get_elem?, get_or,
  if◌then◌else◌, inl, inr, none, not, refl, set, some, suc, true, zero, ℕ, ◌&&◌, ◌==◌, ◌∷◌, ◌≡◌,
  ◌≢◌, ◌⊎◌,
}

-- The first index that `p` holds at.
unfoldable pub index_of : {A : Type 0} → (A → Bool) → List A → Option ℕ
index_of p [] = none
index_of p (x ∷ xs) =
    if p x then some 0 else elim (index_of p xs) [ none ↦ none | some i ↦ some (suc i) ]

-- The last index, for a loop that goes on after a match.
unfoldable pub last_index_of : {A : Type 0} → (A → Bool) → List A → Option ℕ
last_index_of p [] = none
last_index_of p (x ∷ xs) = elim (last_index_of p xs) [
  | some i ↦ some (suc i)
  | none ↦ if p x then some 0 else none
]

-- How a table's entries are keyed.
pub record Keyed (A : Type 0) : Type 0 where
  pub key : A → ℕ
  pub valid : A → Bool

module _ {A : Type 0} (t : Keyed A) where
  open t use {key, valid}

  abbrev pub holds : ℕ → A → Bool
  holds k x = valid x && key x == k

  -- The entry of a key: `FindCursor` and the lookup loops.
  unfoldable pub find : ℕ → List A → Option A
  find k [] = none
  find k (x ∷ xs) = if holds k x then some x else find k xs

  -- The slot of a key, or else the first free one: `FindCursorSlot` and the loops like it.
  unfoldable pub slot : ℕ → List A → Option ℕ
  slot k xs = elim (index_of (holds k) xs) [
    | some i ↦ some i
    | none ↦ index_of (λ x. not (valid x)) xs
  ]

  -- No key stands in two valid entries.
  abbrev pub Unique : List A → Type 0
  Unique [] = Unit
  Unique (x ∷ xs) = (valid x ≡ true → find (key x) xs ≡ none) × Unique xs

  pub index-find-none : (k : ℕ) (xs : List A) → index_of (holds k) xs ≡ none → find k xs ≡ none
  unfolding index_of find
  index-find-none k [] h = refl
  index-find-none k (x ∷ xs) h = ground (arith, index-find-none k xs)

  -- What the scan for a slot stops at.
  pub data At (k : ℕ) : List A → ℕ → Type 0 where
    match : (y : A) (ys : List A) → holds k y ≡ true → At k (y ∷ ys) zero
    free : (y : A) (ys : List A) → valid y ≡ false → find k ys ≡ none → At k (y ∷ ys) zero
    later : (y : A) (ys : List A) (i : ℕ) → holds k y ≡ false → At k ys i → At k (y ∷ ys) (suc i)

  pub index-At : (k : ℕ) (xs : List A) (i : ℕ) → index_of (holds k) xs ≡ some i → At k xs i
  unfolding index_of
  index-At k [] i h = cc
  index-At k (y ∷ ys) i h = elim (Bool-cases (holds k y)) [
    | inl hit ↦ let at0 : i ≡ 0 = ground arith in rw at0 (match y ys hit)
    | inr miss ↦ elim (Option-cases (index_of (holds k) ys)) [
      | inl gone ↦ absurd (ground arith)
      | inr (j, e) ↦
          let after : i ≡ suc j = ground arith in rw after (later y ys j miss (index-At k ys j e))
    ]
  ]

  pub free-At :
      (k : ℕ) (xs : List A) (i : ℕ)
      → index_of (holds k) xs ≡ none
      → index_of (λ x. not (valid x)) xs ≡ some i
      → At k xs i
  unfolding index_of
  free-At k [] i g h = cc
  free-At k (y ∷ ys) i g h =
      let miss : holds k y ≡ false = ground arith in
      let gone : index_of (holds k) ys ≡ none = ground arith in
      elim (Bool-cases (valid y)) [
        | inr empty ↦
            let at0 : i ≡ 0 = ground arith in rw at0 (free y ys empty (index-find-none k ys gone))
        | inl taken ↦ elim (Option-cases (index_of (λ x. not (valid x)) ys)) [
          | inl full ↦ absurd (ground arith)
          | inr (j, e) ↦
              let after : i ≡ suc j = ground arith in
              rw after (later y ys j miss (free-At k ys j gone e))
        ]
      ]

  pub slot-At : (k : ℕ) (xs : List A) (i : ℕ) → slot k xs ≡ some i → At k xs i
  unfolding slot
  slot-At k xs i h = elim (Option-cases (index_of (holds k) xs)) [
    | inl gone ↦ free-At k xs i gone (ground arith)
    | inr (j, e) ↦ index-At k xs i (ground arith)
  ]

  -- Writing an entry of key `k` into its slot changes what is found for `k` alone.
  pub find-set :
      (k j : ℕ) (x : A) (xs : List A) (i : ℕ)
      → At k xs i
      → holds k x ≡ true
      → find j (set xs i x) ≡ (if k == j then some x else find j xs)
  unfolding find
  find-set k j x _ _ (match y ys hit) v = ground arith
  find-set k j x _ _ (free y ys empty gone) v = ground arith
  find-set k j x _ _ (later y ys i miss rest) v = ground (arith, find-set k j x ys i rest)

  pub Unique-set :
      (k : ℕ) (x : A) (xs : List A) (i : ℕ)
      → At k xs i
      → holds k x ≡ true
      → Unique xs
      → Unique (set xs i x)
  unfolding find
  Unique-set k x _ _ (match y ys hit) v (u, us) = ((λ q. ground (arith, u)), us)
  Unique-set k x _ _ (free y ys empty gone) v (u, us) = ((λ q. ground (arith, u)), us)
  Unique-set k x _ _ (later y ys i miss rest) v (u, us) =
      ((λ q. ground (arith, u q, find-set k (key y) x ys i rest)), Unique-set k x ys i rest v us)

  -- Clearing the slot of key `k` takes what is found for `k` away, and nothing else.
  pub find-clear :
      (k j : ℕ) (x : A) (xs : List A) (i : ℕ)
      → index_of (holds k) xs ≡ some i
      → valid x ≡ false
      → Unique xs
      → find j (set xs i x) ≡ (if k == j then none else find j xs)
  unfolding find index_of
  find-clear k j x [] i h v u = cc
  find-clear k j x (y ∷ ys) i h v (u, us) = elim (Bool-cases (holds k y)) [
    | inl hit ↦ let at0 : i ≡ 0 = ground arith in rw at0 (ground (arith, u))
    | inr miss ↦ elim (Option-cases (index_of (holds k) ys)) [
      | inl gone ↦ absurd (ground arith)
      | inr (m, e) ↦
          let after : i ≡ suc m = ground arith in
          rw after (ground (arith, find-clear k j x ys m e v us))
    ]
  ]

  pub Unique-clear :
      (k : ℕ) (x : A) (xs : List A) (i : ℕ)
      → index_of (holds k) xs ≡ some i
      → valid x ≡ false
      → Unique xs
      → Unique (set xs i x)
  unfolding index_of
  Unique-clear k x [] i h v u = tt
  Unique-clear k x (y ∷ ys) i h v (u, us) = elim (Bool-cases (holds k y)) [
    | inl hit ↦ let at0 : i ≡ 0 = ground arith in rw at0 ((λ q. absurd (cc)), us)
    | inr miss ↦ elim (Option-cases (index_of (holds k) ys)) [
      | inl gone ↦ absurd (ground arith)
      | inr (m, e) ↦
          let after : i ≡ suc m = ground arith in
          rw after (
            (λ q. ground (arith, u q, find-clear k (key y) x ys m e v us)),
            Unique-clear k x ys m e v us,
          )
    ]
  ]

  -- The slot that a key is found in.
  pub find-index :
      (k : ℕ) (xs : List A) (x : A)
      → find k xs ≡ some x
      → (i : ℕ) × (index_of (holds k) xs ≡ some i) × (get_elem? xs i ≡ some x) × (holds k x ≡ true)
  unfolding find index_of
  find-index k [] x h = absurd (ground arith)
  find-index k (y ∷ ys) x h = elim (Bool-cases (holds k y)) [
    | inl hit ↦ (0, ground arith, ground arith, ground arith)
    | inr miss ↦ let (i, e, g, v) = find-index k ys x (ground arith) in (suc i, ground arith, g, v)
  ]

  -- A key that is found has a slot.
  pub find-slot : (k : ℕ) (xs : List A) (x : A) → find k xs ≡ some x → slot k xs ≢ none
  unfolding slot
  find-slot k xs x h q = let (i, e, g, v) = find-index k xs x h in ground arith

  last_index_none : (k : ℕ) (xs : List A) → find k xs ≡ none → last_index_of (holds k) xs ≡ none
  unfolding last_index_of find
  last_index_none k [] h = refl
  last_index_none k (x ∷ xs) h = ground (arith, last_index_none k xs)

  -- With unique keys a loop that goes on finds the same entry.
  pub last_index_of-Unique :
      (k : ℕ) (xs : List A) → Unique xs → last_index_of (holds k) xs ≡ index_of (holds k) xs
  unfolding last_index_of index_of
  last_index_of-Unique k [] u = refl
  last_index_of-Unique k (x ∷ xs) (u, us) =
      ground (arith, u, last_index_of-Unique k xs us, last_index_none k xs)

  -- What the slot of a key holds before it is written.
  pub At-value :
      (k : ℕ) (d : A) (xs : List A) (i : ℕ)
      → At k xs i
      → (find k xs ≡ some (get_or xs i d)) ⊎ ((find k xs ≡ none) × (valid (get_or xs i d) ≡ false))
  unfolding find
  At-value k d _ _ (match y ys hit) = inl (ground arith)
  At-value k d _ _ (free y ys empty gone) = inr (ground arith, empty)
  At-value k d _ _ (later y ys i miss rest) = ground (arith, At-value k d ys i rest)

  pub At-All :
      (P : A → Type 0) (k : ℕ) (d : A) (xs : List A) (i : ℕ)
      → At k xs i
      → All P xs
      → P (get_or xs i d)
  At-All P k d _ _ (match y ys hit) h = h.0
  At-All P k d _ _ (free y ys empty gone) h = h.0
  At-All P k d _ _ (later y ys i miss rest) h = At-All P k d ys i rest h.1

  pub index-value :
      (k : ℕ) (d : A) (xs : List A) (i : ℕ)
      → index_of (holds k) xs ≡ some i
      → find k xs ≡ some (get_or xs i d)
  unfolding index_of find
  index-value k d [] i h = cc
  index-value k d (x ∷ xs) i h = elim (Bool-cases (holds k x)) [
    | inl hit ↦ ground arith
    | inr miss ↦ elim (Option-cases (index_of (holds k) xs)) [
      | inl gone ↦ absurd (ground arith)
      | inr (j, e) ↦
          let after : i ≡ suc j = ground arith in rw after (ground (arith, index-value k d xs j e))
    ]
  ]

  pub holds-find :
      (k : ℕ) (xs : List A) (x : A) → find k xs ≡ some x → (valid x ≡ true) × (key x ≡ k)
  unfolding find
  holds-find k [] x h = absurd (ground arith)
  holds-find k (y ∷ ys) x h = ground (arith, holds-find k ys x)
