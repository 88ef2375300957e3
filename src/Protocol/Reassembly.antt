-- ===== src/Protocol/Reassembly.antt =====
-- A frame that is cut into fragments is put together again:
-- components/note4_companion/note4_companion_protocol.cc.

use zectrix_note4_platform.Base.{
  Bool, Bool-cases, List, [], ap, arith, drop, false, get_or, if◌then◌else◌, inl, inr, leb, length,
  length-drop, length-take, refl, suc, sym, take, true, zero, ℕ, ◌++◌, ◌+◌, ◌<◌, ◌∙◌, ◌∷◌, ◌≡◌, ◌≢◌,
  ◌≤◌, ◌⊎◌,
}
use zectrix_note4_platform.Protocol.{
  frame_magic, frame_header_size, maximum_frame_size, u16_at, ok, fragment_accepted, frame_complete,
}
use zectrix_note4_platform.Protocol.Fragments.{FragmentReassembler, expect, conclude, append_data}

take_nil {ℓ} : {A : Type ℓ} (n : ℕ) → take n [] ≡ (let xs : List A = [] in xs)
take_nil zero = refl
take_nil (suc n) = refl

take-add {ℓ} :
    {A : Type ℓ} (m k : ℕ) (xs : List A) → take m xs ++ take k (drop m xs) ≡ take (m + k) xs
take-add zero k xs = ap (λ (n : ℕ). take n xs) (omega arith)
take-add (suc m) k [] = take_nil k ∙ sym (take_nil (suc m + k))
take-add (suc m) k (x ∷ xs) =
    ap (◌∷◌ x) (take-add m k xs)
    ∙ ap (λ (n : ℕ). take n (x ∷ xs)) (let e : suc (m + k) ≡ suc m + k = omega arith in e)

pub take_whole {ℓ} : {A : Type ℓ} (m : ℕ) (xs : List A) → length xs ≤ m → take m xs ≡ xs
take_whole zero [] h = refl
take_whole zero (x ∷ xs) h = absurd (omega arith)
take_whole (suc m) [] h = refl
take_whole (suc m) (x ∷ xs) h = ap (◌∷◌ x) (take_whole m xs (omega arith))

get_or-take {ℓ} :
    {A : Type ℓ} (m i : ℕ) (xs : List A) (a : A) → i < m → get_or (take m xs) i a ≡ get_or xs i a
get_or-take zero i xs a h = absurd (omega arith)
get_or-take (suc m) i [] a h = refl
get_or-take (suc m) zero (x ∷ xs) a h = refl
get_or-take (suc m) (suc i) (x ∷ xs) a h = get_or-take m i xs a (omega arith)

module _ (offset : ℕ) (end : Bool) (bytes : List ℕ) (r r' : FragmentReassembler) where
  append_data-conclude :
      offset ≡ length r.received
      → length r.received + length bytes ≤ maximum_frame_size
      → expect (record r { received = r.received ++ bytes }) ≡ (ok, r')
      → append_data offset end bytes r ≡ conclude end r'
  unfolding append_data
  append_data-conclude h k e = rw e (ground arith)

conclude-middle :
    (r : FragmentReassembler)
    → (r.expected_size ≡ 0) ⊎ (length r.received < r.expected_size)
    → conclude false r ≡ (fragment_accepted, r)
unfolding conclude
conclude-middle r h = ground arith

conclude-last :
    (r : FragmentReassembler)
    → r.expected_size ≢ 0
    → length r.received ≡ r.expected_size
    → conclude true r ≡ (frame_complete, record r { is_active = false })
unfolding conclude
conclude-last r h k = ground arith

-- What the header of a frame says of itself.
pub record IsWhole (frame : List ℕ) : Type 0 where
  pub has_header : frame_header_size ≤ length frame
  pub fits : length frame ≤ maximum_frame_size
  pub magic : u16_at frame 0 ≡ frame_magic
  pub size : frame_header_size + u16_at frame 16 ≡ length frame

-- The reassembler when it has the first `m` bytes.
abbrev pub holding : List ℕ → ℕ → ℕ → FragmentReassembler
holding frame id m = record {
  received = take m frame;
  expected_size = if leb frame_header_size m then length frame else 0;
  frame_id = id;
  is_active = true;
}

module _ (frame : List ℕ) (id : ℕ) (w : IsWhole frame) where
  expect-holding :
      (m m' : ℕ)
      → m ≤ m'
      → m' ≤ length frame
      → expect (record (holding frame id m) { received = take m' frame })
        ≡ (ok, holding frame id m')
  unfolding expect
  expect-holding m m' h k = ground (
    arith,
    length-take m' frame,
    get_or-take m' 0 frame 0,
    get_or-take m' 1 frame 0,
    get_or-take m' 16 frame 0,
    get_or-take m' 17 frame 0,
    w.magic,
    w.size,
    w.fits,
    w.has_header,
  )

  pub length-chunk : (m k : ℕ) → m + k ≤ length frame → length (take k (drop m frame)) ≡ k
  length-chunk m k h = omega (arith, length-take k (drop m frame), length-drop m frame)

  grown :
      (m k : ℕ)
      → record (holding frame id m) { received = take m frame ++ take k (drop m frame) }
        ≡ record (holding frame id m) { received = take (m + k) frame }
  grown m k = ap (λ (l : List ℕ). record (holding frame id m) { received = l }) (take-add m k frame)

  module _ (m k : ℕ) (inside : m + k ≤ length frame) where
    append_data-holding :
        (end : Bool)
        → append_data m end (take k (drop m frame)) (holding frame id m)
          ≡ conclude end (holding frame id (m + k))
    append_data-holding end =
        append_data-conclude m end (take k (drop m frame)) (holding frame id m)
          (holding frame id (m + k)) (omega (arith, length-take m frame))
          (omega (arith, length-take m frame, length-chunk m k inside, w.fits))
          (ap expect (grown m k) ∙ expect-holding m (m + k) (omega arith) inside)

    unfinished :
        m + k ≢ length frame
        → ((holding frame id (m + k)).expected_size ≡ 0)
          ⊎ (length (take (m + k) frame) < (holding frame id (m + k)).expected_size)
    unfinished h = elim (Bool-cases (leb frame_header_size (m + k))) [
      | inl known ↦ inr (rw known (omega (arith, length-take (m + k) frame)))
      | inr unknown ↦ inl (rw unknown refl)
    ]

    pub append_data-middle :
        m + k ≢ length frame
        → append_data m false (take k (drop m frame)) (holding frame id m)
          ≡ (fragment_accepted, holding frame id (m + k))
    append_data-middle h =
        append_data-holding false ∙ conclude-middle (holding frame id (m + k)) (unfinished h)

    pub append_data-last :
        m + k ≡ length frame
        → append_data m true (take k (drop m frame)) (holding frame id m)
          ≡ (frame_complete, record (holding frame id (m + k)) { is_active = false })
    append_data-last h =
        append_data-holding true
        ∙ conclude-last (holding frame id (m + k)) (ground (arith, w.has_header))
            (ground (arith, length-take (m + k) frame, w.has_header))
