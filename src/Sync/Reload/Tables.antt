-- ===== src/Sync/Reload/Tables.antt =====
-- The records of one table, read back by the loop of `LoadState`:
-- components/note4_companion/note4_sync_engine.cc.
use zectrix_note4_platform.Protocol.{u16_at}
use zectrix_note4_platform.Sync.Reload.Compact.{kept, AllValid}
use zectrix_note4_platform.Sync.Table.{holds, Unique, find, Keyed}
use zectrix_note4_platform.Base.{
  All, All-append, Bool-cases, List, Option-cases, [], ap, append-nil, append_assoc, arith, drop,
  drop-length_append, false, if◌then◌else◌, inl, inr, le16, length, length-append, ltb, none,
  of_le16, refl, some, suc, sym, take, take-length_append, true, zero, ℕ, ◌%◌, ◌++◌, ◌+◌, ◌-◌, ◌/◌,
  ◌<◌, ◌∙◌, ◌∷◌, ◌≡◌, ◌≤◌,
}
use zectrix_note4_platform.Sync.Load.{Loading, load_one, load_records}

abbrev pub record_of : ℕ → List ℕ → List ℕ
record_of type bs = type ∷ 0 ∷ (le16 (length bs) ++ bs)

drop-add {ℓ} :
    {A : Type ℓ} (n : ℕ) (a b c d : A) (xs : List A) → drop (4 + n) (a ∷ b ∷ c ∷ d ∷ xs) ≡ drop n xs
drop-add n a b c d xs =
    ap (λ (k : ℕ). drop k (a ∷ b ∷ c ∷ d ∷ xs))
      (let e : 4 + n ≡ suc (suc (suc (suc n))) = omega arith in e)

pub load_records_step :
    (f version type : ℕ) (bs rest : List ℕ) (l l' : Loading)
    → length bs < 65536
    → load_one version type bs l ≡ some l'
    → load_records (suc f) version (record_of type bs ++ rest) l ≡ load_records f version rest l'
unfolding load_records
load_records_step f version type bs rest l l' small e =
    let size : of_le16 (length bs % 256) (length bs / 256 % 256) ≡ length bs = omega arith in
    let behind =
      drop-add (length bs) type 0 (length bs % 256) (length bs / 256 % 256) (bs ++ rest) in
    let enough : ltb (length (record_of type bs ++ rest)) 4 ≡ false = ground arith in
    let room : ltb (length (record_of type bs ++ rest) - 4) (length bs) ≡ false =
      ground (arith, length-append bs rest) in
    rw (enough, size, room, take-length_append bs rest, e, size, behind, drop-length_append bs rest)
      refl

-- More fuel than enough changes nothing.
pub load_records-fuel :
    (f g version : ℕ) (bs : List ℕ) (l l' : Loading)
    → f ≤ g
    → load_records f version bs l ≡ some l'
    → load_records g version bs l ≡ some l'
unfolding load_records
load_records-fuel zero zero version bs l l' h e = e
load_records-fuel zero (suc g) version [] l l' h e = e
load_records-fuel zero (suc g) version (b ∷ bs) l l' h e = absurd (cc)
load_records-fuel (suc f) zero version bs l l' h e = absurd (omega arith)
load_records-fuel (suc f) (suc g) version [] l l' h e = e
load_records-fuel (suc f) (suc g) version (b ∷ bs) l l' h e =
    elim (Option-cases (load_one version b (take (u16_at (b ∷ bs) 2) (drop 4 (b ∷ bs))) l)) [
      | inl refused ↦ absurd (ground arith)
      | inr (l'', took) ↦
          ground
            (arith, load_records-fuel f g version (drop (4 + u16_at (b ∷ bs) 2) (b ∷ bs)) l'' l')
    ]

module _ {A : Type 0} (t : Keyed A) where
  open t use {key, valid}

  -- What `Persist` writes for a table.
  abbrev pub table_bytes : ℕ → (A → List ℕ) → List A → List ℕ
  table_bytes type content [] = []
  table_bytes type content (x ∷ xs) =
      if valid x
      then record_of type (content x) ++ table_bytes type content xs
      else table_bytes type content xs

  -- No key of a valid entry stands in the table so far.
  abbrev pub AreNew : List A → List A → Type 0
  AreNew done = All (λ y. valid y ≡ true → find t (key y) done ≡ none)

  find-snoc :
      (k : ℕ) (done : List A) (x : A)
      → find t k done ≡ none
      → holds t k x ≡ false
      → find t k (done ++ x ∷ []) ≡ none
  unfolding find
  find-snoc k [] x h n = ground arith
  find-snoc k (y ∷ done) x h n = ground (arith, find-snoc k done x)

  AreNew-snoc :
      (done : List A) (x : A) (ys : List A)
      → find t (key x) ys ≡ none
      → AreNew done ys
      → AreNew (done ++ x ∷ []) ys
  unfolding find
  AreNew-snoc done x [] h n = tt
  AreNew-snoc done x (y ∷ ys) h n = (
    (λ v. find-snoc (key y) done x (n.0 v) (ground arith)),
    AreNew-snoc done x ys (ground arith) n.1,
  )

  module _ (version type cap : ℕ) (content : A → List ℕ) (holding : List A → Loading)
      (IsGood : A → Type 0) (small : (x : A) → IsGood x → length (content x) < 65536)
      (step : (done : List A) (x : A)
        → AllValid t done
        → length done < cap
        → find t (key x) done ≡ none
        → valid x ≡ true
        → IsGood x
        → load_one version type (content x) (holding done) ≡ some (holding (done ++ x ∷ []))) where
    pub load_records-table :
        (xs done : List A) (f : ℕ) (rest : List ℕ)
        → AllValid t done
        → length done + length xs ≤ cap
        → Unique t xs
        → AreNew done xs
        → All (λ x. valid x ≡ true → IsGood x) xs
        → load_records
            (length (kept t xs) + f)
            version
            (table_bytes type content xs ++ rest)
            (holding done)
          ≡ load_records f version rest (holding (done ++ kept t xs))
    load_records-table [] done f rest v n u new good = λ i.
        load_records ((let e : 0 + f ≡ f = omega arith in e) i) version rest
          (holding (sym (append-nil done) i))
    load_records-table (x ∷ xs) done f rest v n u new good = elim (Bool-cases (valid x)) [
      | inr empty ↦
          rw empty (load_records-table xs done f rest v (omega (arith, n)) u.1 new.1 good.1)
      | inl taken ↦
          let count : suc (length (kept t xs)) + f ≡ suc (length (kept t xs) + f) = omega arith in
          let bytes =
            append_assoc (record_of type (content x)) (table_bytes type content xs) rest in
          let new' = AreNew-snoc done x xs (u.0 taken) new.1 in
          let valid' = All-append (λ y. valid y ≡ true) done (x ∷ []) v (taken, tt) in
          rw taken (
            (λ i. load_records (count i) version (bytes i) (holding done))
            ∙ load_records_step (length (kept t xs) + f) version type (content x)
                (table_bytes type content xs ++ rest) (holding done) (holding (done ++ x ∷ []))
                (small x (good.0 taken))
                (step done x v (omega (arith, n)) (new.0 taken) taken (good.0 taken))
            ∙ load_records-table xs (done ++ x ∷ []) f rest valid'
                (omega (arith, n, length-append done (x ∷ []))) u.1 new' good.1
            ∙ ap (λ (d : List A). load_records f version rest (holding d))
                (append_assoc done (x ∷ []) (kept t xs)))
    ]
