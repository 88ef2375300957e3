-- ===== src/Sync/Reload/Compact.antt =====
-- A table that is loaded holds the valid entries in the first slots.
use zectrix_note4_platform.Base.{
  All, List, [], ap, arith, false, if◌then◌else◌, length, none, not, refl, replicate, set, some,
  suc, true, zero, ℕ, ◌++◌, ◌∷◌, ◌≡◌,
}
use zectrix_note4_platform.Sync.Table.{find, index_of, Keyed}
use zectrix_note4_platform.Sync.Load.{free_slot}

module _ {A : Type 0} (t : Keyed A) where
  open t use {key, valid}

  -- The valid entries, in order.
  abbrev pub kept : List A → List A
  kept [] = []
  kept (x ∷ xs) = if valid x then x ∷ kept xs else kept xs

  abbrev pub AllValid : List A → Type 0
  AllValid = All (λ x. valid x ≡ true)

  module _ (blank : A) (free : valid blank ≡ false) where
    find-blank : (k n : ℕ) → find t k (replicate n blank) ≡ none
    unfolding find
    find-blank k zero = refl
    find-blank k (suc n) = rw free (find-blank k n)

    pub find-compact :
        (k n : ℕ) (xs : List A) → find t k (kept xs ++ replicate n blank) ≡ find t k xs
    unfolding find
    find-compact k n [] = find-blank k n
    find-compact k n (x ∷ xs) = ground (arith, find-compact k n xs)

    first_free :
        (n : ℕ) (done : List A)
        → AllValid done
        → index_of (λ x. not (valid x)) (done ++ replicate (suc n) blank) ≡ some (length done)
    unfolding index_of
    first_free n [] h = rw free refl
    first_free n (x ∷ done) h = rw (h.0, first_free n done h.1) refl

    find-append :
        (k n : ℕ) (done : List A)
        → find t k done ≡ none
        → find t k (done ++ replicate n blank) ≡ none
    unfolding find
    find-append k n [] h = find-blank k n
    find-append k n (x ∷ done) h = ground (arith, find-append k n done)

    pub free_slot-compact :
        (k n : ℕ) (done : List A)
        → AllValid done
        → find t k done ≡ none
        → free_slot t k (done ++ replicate (suc n) blank) ≡ some (length done)
    unfolding free_slot
    free_slot-compact k n done v h =
        rw (free_slot, find-append k (suc n) done h) (first_free n done v)

pub set-length_append {ℓ} :
    {A : Type ℓ} (done : List A) (y : A) (ys : List A) (v : A)
    → set (done ++ y ∷ ys) (length done) v ≡ (done ++ v ∷ []) ++ ys
set-length_append [] y ys v = refl
set-length_append (x ∷ done) y ys v = ap (◌∷◌ x) (set-length_append done y ys v)
