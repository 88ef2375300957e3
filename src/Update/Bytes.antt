-- ===== src/Update/Bytes.antt =====
-- The bytes of a stream that is taken in chunks behind a header of fixed size.
use zectrix_note4_platform.Base.{
  List, [], ap, arith, drop, inl, inr, length, length-take, min, refl, suc, sym, take, zero, ℕ,
  ◌++◌, ◌-◌, ◌∙◌, ◌∷◌, ◌≡◌, ◌≤◌, ◌⊎◌,
}
use zectrix_note4_platform.Update.{Effect, begins_image, writes_image, commits_image, aborts_image}

-- What the image holds after the effects: `BeginImage` empties it and `WriteImage` appends.
unfoldable pub stored : List ℕ → List Effect → List ℕ
stored image [] = image
stored image (begins_image target size header ∷ es) = stored [] es
stored image (writes_image bytes ∷ es) = stored (image ++ bytes) es
stored image (commits_image crc ∷ es) = stored image es
stored image (aborts_image ∷ es) = stored image es

pub stored-append :
    (image : List ℕ) (es es' : List Effect)
    → stored image (es ++ es') ≡ stored (stored image es) es'
unfolding stored
stored-append image [] es' = refl
stored-append image (begins_image target size header ∷ es) es' = stored-append [] es es'
stored-append image (writes_image bytes ∷ es) es' = stored-append (image ++ bytes) es es'
stored-append image (commits_image crc ∷ es) es' = stored-append image es es'
stored-append image (aborts_image ∷ es) es' = stored-append image es es'

pub stored-write :
    (image : List ℕ) (es : List Effect) (bytes : List ℕ)
    → stored image (es ++ writes_image bytes ∷ []) ≡ stored image es ++ bytes
unfolding stored
stored-write image es bytes = stored-append image es (writes_image bytes ∷ [])

module _ {A : Type 0} where
  pub drop-all : (n : ℕ) (xs : List A) → length xs ≤ n → drop n xs ≡ []
  drop-all zero [] le = refl
  drop-all zero (x ∷ xs) le = absurd (omega arith)
  drop-all (suc n) [] le = refl
  drop-all (suc n) (x ∷ xs) le = drop-all n xs (omega arith)

  pub take-all : (n : ℕ) (xs : List A) → length xs ≤ n → take n xs ≡ xs
  take-all zero [] le = refl
  take-all zero (x ∷ xs) le = absurd (omega arith)
  take-all (suc n) [] le = refl
  take-all (suc n) (x ∷ xs) le = ap (λ ys. x ∷ ys) (take-all n xs (omega arith))

  take-zero : (xs : List A) → take 0 xs ≡ []
  take-zero [] = refl
  take-zero (x ∷ xs) = refl

  take-append : (n : ℕ) (xs ys : List A) → take n (xs ++ ys) ≡ take n xs ++ take (n - length xs) ys
  take-append zero [] ys = refl
  take-append zero (x ∷ xs) ys =
      let none_left : 0 - length (x ∷ xs) ≡ 0 = omega arith in
      sym (ap (λ n. take n ys) none_left ∙ take-zero ys)
  take-append (suc n) [] ys =
      let all_left : suc n - length {A = A} [] ≡ suc n = omega arith in
      sym (ap (λ m. take m ys) all_left)
  take-append (suc n) (x ∷ xs) ys =
      let less : suc n - length (x ∷ xs) ≡ n - length xs = omega arith in
      ap (λ zs. x ∷ zs) (take-append n xs ys ∙ sym (ap (λ m. take n xs ++ take m ys) less))

  take-min : (n : ℕ) (xs : List A) → take (min (length xs) n) xs ≡ take n xs
  take-min n xs = elim (leb-cases n (length xs)) [
    | inl short ↦ let m : min (length xs) n ≡ n = omega arith in rw m refl
    | inr long ↦
        let m : min (length xs) n ≡ length xs = omega arith in
        rw m (take-all (length xs) xs (omega arith) ∙ sym (take-all n xs (omega arith)))
  ]
    where
      leb-cases : (a b : ℕ) → (a ≤ b) ⊎ (b ≤ a)
      leb-cases a b = ground arith

  -- The header grows to the first `n` bytes of the longer stream.
  pub header-grows :
      (n : ℕ) (stream bytes : List A)
      → take n stream ++ take (min (length bytes) (n - length (take n stream))) bytes
        ≡ take n (stream ++ bytes)
  header-grows n stream bytes =
      let room : n - length (take n stream) ≡ n - length stream =
        omega (arith, length-take n stream) in
      rw (room, take-min (n - length stream) bytes) (sym (take-append n stream bytes))
