-- ===== src/Reader/Recent.antt =====
-- The bookmarks kept after a new one is put: Bookmarks::Put of
-- components/note4_reader/note4_reader_bookmarks.cc against a list without the array.
use zectrix_note4_platform.Base.{
  &&_parts, ==_iff, All, Bool-cases, List, [], ap, arith, false, if◌then◌else◌, inl, inr, length,
  refl, set, subst, suc, take, true, zero, ℕ, ◌+◌, ◌<◌, ◌==◌, ◌∙◌, ◌∷◌, ◌≡◌, ◌≤◌, ◌⊎◌,
}
use zectrix_note4_platform.Reader.{Bookmark, same_id, copy_up, shift, State, id_index}

-- The abstract view: the bookmarks, most recent first.
unfoldable pub marks : State → List Bookmark
marks s = take s.count s.entries

abbrev pub Differs : List ℕ → Bookmark → Type 0
Differs id e = same_id e.book_id id ≡ false

abbrev pub AreDistinct : List Bookmark → Type 0
AreDistinct [] = Unit
AreDistinct (e ∷ es) = All (Differs e.book_id) es × AreDistinct es

abbrev pub without : List ℕ → List Bookmark → List Bookmark
without id [] = []
without id (e ∷ es) = if same_id e.book_id id then without id es else e ∷ without id es

abbrev pub remove_at : ℕ → List Bookmark → List Bookmark
remove_at i [] = []
remove_at zero (e ∷ es) = es
remove_at (suc i) (e ∷ es) = e ∷ remove_at i es

pub copy_up-length : (i : ℕ) (es : List Bookmark) → length (copy_up i es) ≡ length es
copy_up-length zero [] = refl
copy_up-length zero (a ∷ []) = refl
copy_up-length zero (a ∷ b ∷ es) = refl
copy_up-length (suc i) [] = refl
copy_up-length (suc i) (a ∷ es) = ap suc (copy_up-length i es)

remove_at-copy_up :
    (i : ℕ) (es : List Bookmark)
    → i + 1 < length es
    → remove_at i (copy_up i es) ≡ remove_at (suc i) es
remove_at-copy_up i [] h = absurd (omega arith)
remove_at-copy_up zero (a ∷ []) h = absurd (omega arith)
remove_at-copy_up zero (a ∷ b ∷ es) h = refl
remove_at-copy_up (suc i) (a ∷ es) h = ap (◌∷◌ a) (remove_at-copy_up i es (omega arith))

-- The loop and the write behind it take an entry out and put the new one in front.
pub set-shift :
    (i : ℕ) (es : List Bookmark) (mark : Bookmark)
    → i < length es
    → set (shift i es) 0 mark ≡ mark ∷ remove_at i es
set-shift i [] mark h = absurd (omega arith)
set-shift zero (e ∷ es) mark h = refl
set-shift (suc i) (e ∷ es) mark h =
    let kept = copy_up-length i (e ∷ es) in
    let moved = remove_at-copy_up i (e ∷ es) (omega arith) in
    let rest = set-shift i (copy_up i (e ∷ es)) mark (omega arith) in rest ∙ ap (◌∷◌ mark) moved

same_id→≡ : (xs ys : List ℕ) → same_id xs ys ≡ true → xs ≡ ys
same_id→≡ [] [] h = refl
same_id→≡ [] (y ∷ ys) h = absurd (cc h)
same_id→≡ (x ∷ xs) [] h = absurd (cc h)
same_id→≡ (x ∷ xs) (y ∷ ys) h =
    let parts = &&_parts (x == y) (same_id xs ys) h in
    let heads = (==_iff x y).0 parts.0 in let tails = same_id→≡ xs ys parts.1 in cc

without-Differs : (id : List ℕ) (es : List Bookmark) → All (Differs id) es → without id es ≡ es
without-Differs id [] h = refl
without-Differs id (e ∷ es) h = rw h.0 (ap (◌∷◌ e) (without-Differs id es h.1))

pub take-short {ℓ} : {A : Type ℓ} (n : ℕ) (xs : List A) → length xs ≤ n → take n xs ≡ xs
take-short zero [] h = refl
take-short zero (x ∷ xs) h = absurd (omega arith)
take-short (suc n) [] h = refl
take-short (suc n) (x ∷ xs) h = ap (◌∷◌ x) (take-short n xs (omega arith))

pub take-take {ℓ} : {A : Type ℓ} (n m : ℕ) (xs : List A) → n ≤ m → take n (take m xs) ≡ take n xs
take-take zero m xs h = refl
take-take (suc n) zero xs h = absurd (omega arith)
take-take (suc n) (suc m) [] h = refl
take-take (suc n) (suc m) (x ∷ xs) h = ap (◌∷◌ x) (take-take n m xs (omega arith))

pub take-remove_at : (n : ℕ) (es : List Bookmark) → take n (remove_at n es) ≡ take n es
take-remove_at zero es = refl
take-remove_at (suc n) [] = refl
take-remove_at (suc n) (e ∷ es) = ap (◌∷◌ e) (take-remove_at n es)

-- Where the scan ends: behind the last bookmark, or at the only one of the book.
pub id_index-cases :
    (count : ℕ) (es : List Bookmark) (id : List ℕ)
    → count ≤ length es
    → ((id_index count es id ≡ count) × (without id (take count es) ≡ take count es))
      ⊎ ((rest : ℕ) × (count ≡ suc rest)
          × (id_index count es id < count)
          × (AreDistinct (take count es)
              → without id (take count es) ≡ take rest (remove_at (id_index count es id) es)))
unfolding id_index
id_index-cases zero es id h = inl (refl, refl)
id_index-cases (suc count) [] id h = absurd (omega arith)
id_index-cases (suc count) (e ∷ es) id h =
    let rec = id_index-cases count es id (omega arith) in
    elim (Bool-cases (same_id e.book_id id)) [
      | inl same ↦ inr (
        count,
        refl,
        rw same (omega arith),
        λ d. rw same (
            without-Differs id (take count es)
              (subst (λ x. All (Differs x) (take count es)) (same_id→≡ _ _ same) d.0)),
      )
      | inr other ↦ elim rec [
        | inl fresh ↦ inl (rw other (ap suc fresh.0), rw other (ap (◌∷◌ e) fresh.1))
        | inr (rest, more, below, found) ↦
            inr (
              suc rest,
              ap suc more,
              rw other (omega arith),
              λ d. rw other (ap (◌∷◌ e) (found d.1)),
            )
      ]
    ]
