-- ===== src/Reader/Put.antt =====
-- What Bookmarks::Put of components/note4_reader/note4_reader_bookmarks.cc keeps.
use zectrix_note4_platform.Base.{
  All, All-take, Bool-cases, List, [], ap, arith, if◌then◌else◌, inl, inr, length, length-set,
  length-take, ltb, ltb→lt, min, refl, subst, suc, sym, take, zero, ℕ, ◌&&◌, ◌+◌, ◌==◌, ◌∙◌, ◌∷◌,
  ◌≡◌, ◌≤◌,
}
use zectrix_note4_platform.Reader.{
  Bookmark, copy_up, shift, capacity, State, same_id, id_index, put,
}
use zectrix_note4_platform.Reader.Recent.{
  marks, AreDistinct, without, remove_at, set-shift, take-short, take-take, take-remove_at,
  id_index-cases, Differs, copy_up-length,
}

-- The array has its eight entries, the count is within it and no book has two bookmarks.
unfoldable pub IsSound : State → Type 0
IsSound s = (length s.entries ≡ 8) × (s.count ≤ 8) × AreDistinct (marks s)

-- The specification without the array: the new bookmark in front, the one of the same book taken
-- out, and no more than eight.
abbrev pub recent : Bookmark → List Bookmark → List Bookmark
recent mark es = take capacity (mark ∷ without mark.book_id es)

length-without : (id : List ℕ) (es : List Bookmark) → length (without id es) ≤ length es
length-without id [] = omega arith
length-without id (e ∷ es) = elim (Bool-cases (same_id e.book_id id)) [
  | inl same ↦ rw same (omega (arith, length-without id es))
  | inr other ↦ rw other (omega (arith, length-without id es))
]

next_count : State → Bookmark → ℕ
next_count s mark =
    let index = id_index s.count s.entries mark.book_id in
    if index == s.count && ltb s.count capacity then s.count + 1 else s.count

taken_index : State → Bookmark → ℕ
taken_index s mark = min (id_index s.count s.entries mark.book_id) 7

marks-put :
    (s : State) (mark : Bookmark)
    → length s.entries ≡ 8
    → marks (put s mark)
      ≡ take (next_count s mark) (mark ∷ remove_at (taken_index s mark) s.entries)
unfolding marks put next_count taken_index
marks-put s mark h = ap (take _) (set-shift _ s.entries mark (omega arith))

put-recent :
    (s : State) (mark : Bookmark) (n i : ℕ)
    → length s.entries ≡ 8
    → next_count s mark ≡ suc n
    → taken_index s mark ≡ i
    → take n (remove_at i s.entries) ≡ take 7 (without mark.book_id (marks s))
    → marks (put s mark) ≡ recent mark (marks s)
put-recent s mark n i full counts taken same =
    let step : take (next_count s mark) (mark ∷ remove_at (taken_index s mark) s.entries)
        ≡ mark ∷ take n (remove_at i s.entries) =
      λ j. take (counts j) (mark ∷ remove_at (taken j) s.entries) in
    marks-put s mark full ∙ step ∙ ap (◌∷◌ mark) same

-- In a sound state Put does what the specification says on the list: the new bookmark comes first,
-- an older one of the same book goes, and of more than eight the last goes.
pub put-marks :
    (s : State) (mark : Bookmark) → IsSound s → marks (put s mark) ≡ recent mark (marks s)
unfolding IsSound next_count taken_index marks
put-marks s mark (full, room, distinct) =
    elim (id_index-cases s.count s.entries mark.book_id (omega arith)) [
      | inl (ends, fresh) ↦ elim (Bool-cases (ltb s.count 8)) [
        | inl below ↦
            let lt = ltb→lt _ _ below in
            put-recent s mark s.count s.count full (ground arith) (omega arith) (
              take-remove_at s.count s.entries
              ∙ sym (
                  take-short 7 (take s.count s.entries)
                    (omega (arith, length-take s.count s.entries)))
              ∙ ap (take 7) (sym fresh))
        | inr above ↦ put-recent s mark 7 7 full (ground arith) (ground arith) (
            take-remove_at 7 s.entries
            ∙ sym (take-take 7 s.count s.entries (ground arith))
            ∙ ap (take 7) (sym fresh))
      ]
      | inr (rest, more, below, found) ↦
          put-recent s mark rest (id_index s.count s.entries mark.book_id) full (ground arith)
            (omega arith)
            (sym (found distinct)
              ∙ sym (
                  take-short 7 (without mark.book_id (take s.count s.entries)) (
                    omega (
                      arith,
                      ap length (found distinct),
                      length-take rest
                          (remove_at (id_index s.count s.entries mark.book_id) s.entries),
                    ))))
    ]

without-Differing : (id : List ℕ) (es : List Bookmark) → All (Differs id) (without id es)
without-Differing id [] = tt
without-Differing id (e ∷ es) = elim (Bool-cases (same_id e.book_id id)) [
  | inl same ↦ rw same (without-Differing id es)
  | inr other ↦ rw other (other, without-Differing id es)
]

All-without {κ} :
    (P : Bookmark → Type κ) (id : List ℕ) (es : List Bookmark) → All P es → All P (without id es)
All-without P id [] h = tt
All-without P id (e ∷ es) h = elim (Bool-cases (same_id e.book_id id)) [
  | inl same ↦ rw same (All-without P id es h.1)
  | inr other ↦ rw other (h.0, All-without P id es h.1)
]

without-AreDistinct :
    (id : List ℕ) (es : List Bookmark) → AreDistinct es → AreDistinct (without id es)
without-AreDistinct id [] h = tt
without-AreDistinct id (e ∷ es) h = elim (Bool-cases (same_id e.book_id id)) [
  | inl same ↦ rw same (without-AreDistinct id es h.1)
  | inr other ↦ rw other (All-without (Differs e.book_id) id es h.0, without-AreDistinct id es h.1)
]

take-AreDistinct : (n : ℕ) (es : List Bookmark) → AreDistinct es → AreDistinct (take n es)
take-AreDistinct zero es h = tt
take-AreDistinct (suc n) [] h = tt
take-AreDistinct (suc n) (e ∷ es) h =
    (All-take (Differs e.book_id) n es h.0, take-AreDistinct n es h.1)

shift-length : (i : ℕ) (es : List Bookmark) → length (shift i es) ≡ length es
shift-length zero es = refl
shift-length (suc i) es = shift-length i (copy_up i es) ∙ copy_up-length i es

-- Putting any bookmark in a sound state leaves a sound state: the array whole, the count within it and
-- the books distinct.
pub put-IsSound : (s : State) (mark : Bookmark) → IsSound s → IsSound (put s mark)
unfolding IsSound put
put-IsSound s mark (full, room, distinct) =
    let index : ℕ = min (id_index s.count s.entries mark.book_id) 7 in
    let kept = without-AreDistinct mark.book_id (marks s) distinct in
    let others = without-Differing mark.book_id (marks s) in
    (
      length-set (shift index s.entries) 0 mark ∙ shift-length index s.entries ∙ full,
      ground arith,
      subst AreDistinct (sym (put-marks s mark (full, room, distinct)))
          (All-take (Differs mark.book_id) 7 _ others, take-AreDistinct 7 _ kept),
    )

abbrev pub put_all : State → List Bookmark → State
put_all s [] = s
put_all s (mark ∷ more) = put_all (put s mark) more

abbrev pub recent_of : List Bookmark → List Bookmark → List Bookmark
recent_of [] es = es
recent_of (mark ∷ more) es = recent_of more (recent mark es)

-- After any sequence of bookmarks put in a sound state, the state is sound, and the array holds what the
-- specification has after the same sequence: each new bookmark comes first, an older one of the same
-- book goes, and of more than eight the last goes.
pub put_all-recent_of :
    (s : State) (more : List Bookmark)
    → IsSound s
    → IsSound (put_all s more) × (marks (put_all s more) ≡ recent_of more (marks s))
put_all-recent_of s [] sound = (sound, refl)
put_all-recent_of s (mark ∷ more) sound =
    let rest = put_all-recent_of (put s mark) more (put-IsSound s mark sound) in
    (rest.0, rest.1 ∙ ap (recent_of more) (put-marks s mark sound))
