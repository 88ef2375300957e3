-- ===== src/Host/Wire/RoundTrip.antt =====
-- The decoder takes stuffed bytes apart again.
use zectrix_note4_platform.Base.{
  All, All-append, Bool-cases, List, [], ap, append-nil, append_assoc, arith, inl, inr, length,
  length-append, refl, suc, sym, true, zero, ℕ, ◌++◌, ◌+◌, ◌<◌, ◌==◌, ◌∙◌, ◌∷◌, ◌≡◌, ◌≤◌,
}
use zectrix_note4_platform.Host.{payload_size, header_size}
use zectrix_note4_platform.Host.Wire.{Decoder, append, read_block, read_code, read_codes}
use zectrix_note4_platform.Host.Wire.Blocks.{stuff}

abbrev pub good : List ℕ → List ℕ → Decoder
good input decoded = record { is_good = true; input = input; decoded = decoded }

abbrev pub IsNonzero : List ℕ → Type 0
IsNonzero = All (λ b. 0 < b)

abbrev pub limit : ℕ
limit = header_size + payload_size

read_block-append :
    (block rest decoded : List ℕ)
    → IsNonzero block
    → length decoded + length block ≤ limit
    → read_block (length block) (block ++ rest) decoded ≡ good rest (decoded ++ block)
unfolding read_block append
read_block-append [] rest decoded h n = ap (good rest) (sym (append-nil decoded))
read_block-append (v ∷ block) rest decoded h n =
    let longer = length-append decoded (v ∷ []) in
    let next = read_block-append block rest (decoded ++ v ∷ []) h.1 (omega (arith, longer)) in
    ground (arith, h.0, next, append_assoc decoded (v ∷ []) block)

module _ (block decoded : List ℕ) (nonzero : IsNonzero block) where
  -- The last block, a block that a zero ends, and a full block.
  read_code-last :
      length decoded + length block ≤ limit
      → read_code (suc (length block)) block decoded ≡ good [] (decoded ++ block)
  unfolding read_code
  read_code-last n =
      let whole : read_block (length block) block decoded ≡ good [] (decoded ++ block) =
        rw (append-nil block) at (read_block-append block [] decoded nonzero n) in
      ground (arith, whole)

  read_code-zero :
      (w : ℕ) (rest : List ℕ)
      → length block < 254
      → length decoded + length block < limit
      → read_code (suc (length block)) (block ++ w ∷ rest) decoded
        ≡ good (w ∷ rest) (decoded ++ block ++ 0 ∷ [])
  unfolding read_code append
  read_code-zero w rest m n = ground (
    arith,
    read_block-append block (w ∷ rest) decoded nonzero,
    length-append block (w ∷ rest),
    length-append decoded block,
  )

  read_code-full :
      (rest : List ℕ)
      → length block ≡ 254
      → length decoded + length block ≤ limit
      → read_code (suc (length block)) (block ++ rest) decoded ≡ good rest (decoded ++ block)
  unfolding read_code
  read_code-full rest m n =
      ground (arith, read_block-append block rest decoded nonzero, length-append block rest)

read_codes_step :
    (f code : ℕ) (input decoded input' decoded' : List ℕ)
    → read_code code input decoded ≡ good input' decoded'
    → read_codes (suc f) (code ∷ input) decoded ≡ read_codes f input' decoded'
unfolding read_codes
read_codes_step f code input decoded input' decoded' h = rw h

pub stuff-cons_of : (block vs : List ℕ) → (w : ℕ) × (rest : List ℕ) × (stuff block vs ≡ w ∷ rest)
unfolding stuff
stuff-cons_of block [] = (suc (length block), block, refl)
stuff-cons_of block (zero ∷ vs) = (suc (length block), block ++ stuff [] vs, refl)
stuff-cons_of block (suc v ∷ vs) =
    let (w, rest, e) = stuff-cons_of (block ++ suc v ∷ []) vs in
    elim (Bool-cases (length block == 253)) [
      | inl full ↦ (suc (length block) + 1, (block ++ suc v ∷ []) ++ stuff [] vs, rw full)
      | inr room ↦ (w, rest, rw room e)
    ]

read_codes_end : (f : ℕ) (d : List ℕ) → read_codes f [] d ≡ good [] (d ++ [])
unfolding read_codes
read_codes_end f d = ap (good []) (sym (append-nil d))

regroup : (xs : List ℕ) (v : ℕ) (vs : List ℕ) → ((xs ++ v ∷ []) ++ []) ++ vs ≡ xs ++ v ∷ vs
regroup xs v vs = simp (append-nil, append_assoc)

regroup_full :
    (ds block : List ℕ) (v : ℕ) (vs : List ℕ)
    → ((ds ++ (block ++ v ∷ [])) ++ []) ++ vs ≡ (ds ++ block) ++ v ∷ vs
regroup_full ds block v vs = simp (append-nil, append_assoc)

regroup_room :
    (ds block : List ℕ) (v : ℕ) (vs : List ℕ)
    → (ds ++ (block ++ v ∷ [])) ++ vs ≡ (ds ++ block) ++ v ∷ vs
regroup_room ds block v vs = simp append_assoc

-- The decoder's outer loop takes the stuffed bytes apart again.
pub read_codes-stuff :
    (fuel : ℕ) (block vs decoded : List ℕ)
    → length (stuff block vs) ≤ fuel
    → IsNonzero block
    → length block < 254
    → length decoded + length block + length vs ≤ limit
    → read_codes fuel (stuff block vs) decoded ≡ good [] ((decoded ++ block) ++ vs)
unfolding stuff
read_codes-stuff zero block vs decoded f h m n =
    let (w, rest, e) = stuff-cons_of block vs in absurd (omega (arith, ap length e))
read_codes-stuff (suc fuel) block [] decoded f h m n =
    read_codes_step fuel (suc (length block)) block decoded [] (decoded ++ block)
      (read_code-last block decoded h (omega arith))
    ∙ read_codes_end fuel (decoded ++ block)
read_codes-stuff (suc fuel) block (zero ∷ vs) decoded f h m n =
    let (w, rest, e) = stuff-cons_of [] vs in
    let ends = read_code-zero block decoded h w rest m (omega arith) in
    let enough = length-append block (stuff [] vs) in
    let next = length-append (decoded ++ block) (0 ∷ []) in
    let before = length-append decoded block in
    read_codes_step fuel (suc (length block)) (block ++ stuff [] vs) decoded (stuff [] vs)
      (decoded ++ block ++ 0 ∷ []) (rw e ends)
    ∙ read_codes-stuff fuel [] vs (decoded ++ block ++ 0 ∷ []) (omega (arith, enough)) tt
        (omega arith) (omega (arith, next, before))
    ∙ ap (good []) (regroup (decoded ++ block) 0 vs)
read_codes-stuff (suc fuel) block (suc v ∷ vs) decoded f h m n =
    let longer = length-append block (suc v ∷ []) in
    let whole = All-append (λ b. 0 < b) block (suc v ∷ []) h (omega arith, tt) in
    elim (Bool-cases (length block == 253)) [
      | inl full ↦
          let at253 : length block ≡ 253 = ground arith in
          let enough = length-append (block ++ suc v ∷ []) (stuff [] vs) in
          let next = length-append decoded (block ++ suc v ∷ []) in
          let code : suc (length block) + 1 ≡ suc (length (block ++ suc v ∷ [])) =
            omega (arith, longer) in
          let f' : suc (length ((block ++ suc v ∷ []) ++ stuff [] vs)) ≤ suc fuel = rw full at f in
          rw (full, code)
            (read_codes_step fuel (suc (length (block ++ suc v ∷ [])))
                ((block ++ suc v ∷ []) ++ stuff [] vs) decoded (stuff [] vs)
                (decoded ++ (block ++ suc v ∷ []))
                (read_code-full (block ++ suc v ∷ []) decoded whole (stuff [] vs)
                  (omega (arith, longer)) (omega (arith, longer)))
              ∙ read_codes-stuff fuel [] vs (decoded ++ (block ++ suc v ∷ []))
                  (omega (arith, f', enough)) tt (omega arith) (omega (arith, next, longer))
              ∙ ap (good []) (regroup_full decoded block (suc v) vs))
      | inr room ↦
          let f' : length (stuff (block ++ suc v ∷ []) vs) ≤ suc fuel = rw room at f in
          rw room (
            read_codes-stuff (suc fuel) (block ++ suc v ∷ []) vs decoded f' whole
              (ground (arith, longer)) (omega (arith, longer))
            ∙ ap (good []) (regroup_room decoded block (suc v) vs))
    ]
