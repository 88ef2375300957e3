-- ===== src/Host/Wire/Blocks.antt =====
-- The encoder's loop against a plain description of COBS: the stuffed bytes, block by block.
use zectrix_note4_platform.Base.{
  All, All-append, Bool-cases, List, [], ap, append_assoc, arith, if◌then◌else◌, inl, inr, length,
  length-append, refl, set, suc, zero, ℕ, ◌++◌, ◌+◌, ◌/◌, ◌<◌, ◌==◌, ◌∙◌, ◌∷◌, ◌≡◌, ◌≤◌,
}
use zectrix_note4_platform.Host.Wire.{put_byte, put_bytes, Encoder, close_block, finish}

-- The bytes of `block`, none of them zero, wait for their code; `[]` ends the input.
unfoldable pub stuff : List ℕ → List ℕ → List ℕ
stuff block [] = suc (length block) ∷ block
stuff block (zero ∷ vs) = (suc (length block) ∷ block) ++ stuff [] vs
stuff block (suc v ∷ vs) =
    let closed = (suc (length block) + 1) ∷ (block ++ suc v ∷ []) ++ stuff [] vs in
    let open' = stuff (block ++ suc v ∷ []) vs in if length block == 253 then closed else open'

-- Closed blocks, and an open one behind its slot.
abbrev pub Holds : Encoder → List ℕ → List ℕ → Type 0
Holds e done block =
    (e.output ≡ done ++ 0 ∷ block)
    × (e.code_at ≡ length done)
    × (e.code ≡ suc (length block))
    × (length block < 254)

set-append {ℓ} :
    {A : Type ℓ} (xs : List A) (y : A) (ys : List A) (v : A)
    → set (xs ++ y ∷ ys) (length xs) v ≡ xs ++ v ∷ ys
set-append [] y ys v = refl
set-append (x ∷ xs) y ys v = ap (◌∷◌ x) (set-append xs y ys v)

finish-Holds :
    (e : Encoder) (done block : List ℕ)
    → Holds e done block
    → finish e ≡ (done ++ suc (length block) ∷ block) ++ 0 ∷ []
unfolding finish
finish-Holds e done block (o, a, c, n) =
    rw (o, a, c) (ap (λ (l : List ℕ). l ++ 0 ∷ []) (set-append done 0 block (suc (length block))))

close_block-Holds :
    (e : Encoder) (done block : List ℕ) (n : ℕ)
    → e.output ≡ done ++ 0 ∷ block
    → e.code_at ≡ length done
    → e.code ≡ n
    → Holds (close_block e) (done ++ n ∷ block) []
unfolding close_block
close_block-Holds e done block n o a c = (
  rw (o, a, c) (ap (λ (l : List ℕ). l ++ 0 ∷ []) (set-append done 0 block n)),
  rw o (omega (arith, length-append done (0 ∷ block), length-append done (n ∷ block))),
  refl,
  omega arith,
)

abbrev grow : Encoder → ℕ → Encoder
grow e v = record e { output = e.output ++ v ∷ []; code = e.code + 1 }

put_byte-full :
    (e : Encoder) (v : ℕ) → e.code ≡ 254 → put_byte e (suc v) ≡ close_block (grow e (suc v))
unfolding put_byte
put_byte-full e v h = ground arith

put_byte-room : (e : Encoder) (v : ℕ) → e.code < 254 → put_byte e (suc v) ≡ grow e (suc v)
unfolding put_byte
put_byte-room e v h = ground arith

put_byte-zero : (e : Encoder) → put_byte e 0 ≡ close_block e
unfolding put_byte
put_byte-zero e = refl

-- The loop, from any point on, writes the stuffed rest behind the blocks that are done.
pub put_bytes-stuff :
    (e : Encoder) (done block vs : List ℕ)
    → Holds e done block
    → finish (put_bytes e vs) ≡ (done ++ stuff block vs) ++ 0 ∷ []
unfolding put_bytes stuff
put_bytes-stuff e done block [] h = finish-Holds e done block h
put_bytes-stuff e done block (zero ∷ vs) (o, a, c, n) =
    let closed = close_block-Holds e done block (suc (length block)) o a c in
    rw (put_byte-zero e) (
      put_bytes-stuff (close_block e) (done ++ suc (length block) ∷ block) [] vs closed
      ∙ ap (λ (l : List ℕ). l ++ 0 ∷ [])
          (append_assoc done (suc (length block) ∷ block) (stuff [] vs)))
put_bytes-stuff e done block (suc v ∷ vs) (o, a, c, n) =
    let grown : e.output ++ suc v ∷ [] ≡ done ++ 0 ∷ (block ++ suc v ∷ []) =
      rw o (append_assoc done (0 ∷ block) (suc v ∷ [])) in
    let longer = length-append block (suc v ∷ []) in
    elim (Bool-cases (length block == 253)) [
      | inl full ↦
          let e' = grow e (suc v) in
          let closed =
            close_block-Holds e' done (block ++ suc v ∷ []) (suc (length block) + 1) grown a
              (ap (λ (k : ℕ). k + 1) c) in
          let test : e.code ≡ 254 = ground arith in
          rw (full, put_byte-full e v test)
            (put_bytes-stuff (close_block e')
                (done ++ (suc (length block) + 1) ∷ (block ++ suc v ∷ [])) [] vs closed
              ∙ ap (λ (l : List ℕ). l ++ 0 ∷ [])
                  (append_assoc done ((suc (length block) + 1) ∷ (block ++ suc v ∷ []))
                    (stuff [] vs)))
      | inr room ↦
          let test : e.code < 254 = ground arith in
          let counted : e.code + 1 ≡ suc (length (block ++ suc v ∷ [])) =
            omega (arith, c, longer) in
          let fits : length (block ++ suc v ∷ []) < 254 = ground (arith, longer) in
          rw (room, put_byte-room e v test)
            (put_bytes-stuff (grow e (suc v)) done (block ++ suc v ∷ []) vs
              (grown, a, counted, fits))
    ]

-- Every byte that is written before the delimiter is a nonzero byte.
pub stuff-nonzero :
    (block vs : List ℕ)
    → length block < 254
    → All (λ b. (0 < b) × (b < 256)) block
    → All (λ b. b < 256) vs
    → All (λ b. (0 < b) × (b < 256)) (stuff block vs)
unfolding stuff
stuff-nonzero block [] n h k = ((omega arith, omega arith), h)
stuff-nonzero block (zero ∷ vs) n h k =
    All-append (λ b. (0 < b) × (b < 256)) (suc (length block) ∷ block) (stuff [] vs)
      ((omega arith, omega arith), h) (stuff-nonzero [] vs (omega arith) tt k.1)
stuff-nonzero block (suc v ∷ vs) n h k =
    let longer = length-append block (suc v ∷ []) in
    let whole =
      All-append (λ b. (0 < b) × (b < 256)) block (suc v ∷ []) h ((omega arith, k.0), tt) in
    elim (Bool-cases (length block == 253)) [
      | inl full ↦ rw full (
          All-append (λ b. (0 < b) × (b < 256)) ((suc (length block) + 1) ∷ (block ++ suc v ∷ []))
            (stuff [] vs) ((omega arith, omega arith), whole)
            (stuff-nonzero [] vs (omega arith) tt k.1))
      | inr room ↦
          rw room (stuff-nonzero (block ++ suc v ∷ []) vs (ground (arith, longer)) whole k.1)
    ]

-- COBS adds one byte, and one more for every 254.
pub length-stuff-le :
    (block vs : List ℕ)
    → length block < 254
    → length (stuff block vs) ≤ length block + length vs + (length block + length vs) / 254 + 1
unfolding stuff
length-stuff-le block [] n = omega arith
length-stuff-le block (zero ∷ vs) n = omega (
  arith,
  length-append (suc (length block) ∷ block) (stuff [] vs),
  length-stuff-le [] vs (omega arith),
)
length-stuff-le block (suc v ∷ vs) n =
    let longer = length-append block (suc v ∷ []) in
    elim (Bool-cases (length block == 253)) [
      | inl full ↦
          let full' : length block ≡ 253 = ground arith in
          rw full (
            omega (
              arith,
              longer,
              length-append ((suc (length block) + 1) ∷ (block ++ suc v ∷ [])) (stuff [] vs),
              length-stuff-le [] vs (omega arith),
            ))
      | inr room ↦
          rw room (
            omega
              (arith, longer, length-stuff-le (block ++ suc v ∷ []) vs (ground (arith, longer))))
    ]
