-- ===== src/Protocol/Accepted.antt =====
-- What `DecodeFrame` of components/note4_companion/note4_companion_protocol.cc accepts.
use Prim.Native.Nat.{bit_and}
use zectrix_note4_platform.Base.{
  All, List, [], ap, arith, drop, get_or, le16, le32, length, length-drop, of_le16, of_le32, refl,
  suc, sym, take, zero, ℕ, ◌++◌, ◌+◌, ◌<◌, ◌∙◌, ◌∷◌, ◌≡◌, ◌≤◌,
}
use zectrix_note4_platform.Crc.{crc32}
use zectrix_note4_platform.Protocol.{
  frame_magic, frame_header_size, maximum_payload_size, refused_flags, FrameView, u16_at, u32_at,
  view_of, decode_frame, ok, header_bytes, encode_frame,
}
use zectrix_note4_platform.Protocol.Frames.{IsByte, frame_of, IsHeader, encode_frame-frame_of}

-- `n` bytes from the offset `i`.
abbrev reads : ℕ → ℕ → List ℕ → List ℕ
reads zero i bs = []
reads (suc n) i bs = get_or bs i 0 ∷ reads n (suc i) bs

drop-suc : (i : ℕ) (bs : List ℕ) → i < length bs → drop i bs ≡ get_or bs i 0 ∷ drop (suc i) bs
drop-suc zero [] h = absurd (omega arith)
drop-suc zero (b ∷ bs) h = refl
drop-suc (suc i) [] h = absurd (omega arith)
drop-suc (suc i) (b ∷ bs) h = drop-suc i bs (omega arith)

drop-reads :
    (n i : ℕ) (bs : List ℕ) → i + n ≤ length bs → drop i bs ≡ reads n i bs ++ drop (i + n) bs
drop-reads zero i bs h = ap (λ (k : ℕ). drop k bs) (omega arith)
drop-reads (suc n) i bs h =
    drop-suc i bs (omega arith)
    ∙ ap (◌∷◌ (get_or bs i 0)) (
        drop-reads n (suc i) bs (omega arith)
        ∙ ap (λ (k : ℕ). reads n (suc i) bs ++ drop k bs) (omega arith))

pub get_or-byte : (bs : List ℕ) (i : ℕ) → All IsByte bs → get_or bs i 0 < 256
get_or-byte [] i h = omega arith
get_or-byte (b ∷ bs) zero h = h.0
get_or-byte (b ∷ bs) (suc i) h = get_or-byte bs i h.1

All-drop {ℓ κ} : {A : Type ℓ} (P : A → Type κ) (n : ℕ) (xs : List A) → All P xs → All P (drop n xs)
All-drop P zero xs h = h
All-drop P (suc n) [] h = tt
All-drop P (suc n) (x ∷ xs) h = All-drop P n xs h.1

-- The tests that an accepted frame has passed.
record Passes (frame : List ℕ) (supported_major maximum_supported_minor : ℕ) : Type 0 where
  magic : u16_at frame 0 ≡ frame_magic
  major : get_or frame 2 0 ≡ supported_major
  minor : get_or frame 3 0 ≤ maximum_supported_minor
  class : get_or frame 4 0 ≤ 3
  flags : bit_and (get_or frame 5 0) refused_flags ≡ 0
  reserved : u16_at frame 18 ≡ 0
  small : u16_at frame 16 ≤ maximum_payload_size
  size : length frame ≡ frame_header_size + u16_at frame 16
  crc : crc32 (drop frame_header_size frame) (crc32 (take 20 frame) 0) ≡ u32_at frame 20

module _ (frame : List ℕ) (supported_major maximum_supported_minor : ℕ) {v : FrameView}
    (accepted : decode_frame frame supported_major maximum_supported_minor ≡ (ok, v)) where
  accepted-Passes : Passes frame supported_major maximum_supported_minor
  unfolding decode_frame
  accepted-Passes = ground arith

  accepted_view : v ≡ view_of frame
  unfolding decode_frame
  accepted_view = ground arith

le16-of_le16 : (a b : ℕ) → a < 256 → b < 256 → le16 (of_le16 a b) ≡ a ∷ b ∷ []
le16-of_le16 a b ha hb = ground arith

le32-of_le32 :
    (a b c d : ℕ)
    → a < 256
    → b < 256
    → c < 256
    → d < 256
    → le32 (of_le32 a b c d) ≡ a ∷ b ∷ c ∷ d ∷ []
le32-of_le32 a b c d ha hb hc hd = ground arith

module _ (frame : List ℕ) (all_bytes : All IsByte frame) where
  u16-reads : (i : ℕ) → le16 (u16_at frame i) ≡ reads 2 i frame
  u16-reads i =
      rw
        (le16-of_le16 (get_or frame i 0) (get_or frame (i + 1) 0) (get_or-byte frame i all_bytes)
          (get_or-byte frame (i + 1) all_bytes))
        (ap (λ (k : ℕ). get_or frame i 0 ∷ get_or frame k 0 ∷ []) (omega arith))

  u32-reads : (i : ℕ) → le32 (u32_at frame i) ≡ reads 4 i frame
  u32-reads i =
      rw
        (le32-of_le32 (get_or frame i 0) (get_or frame (i + 1) 0) (get_or frame (i + 2) 0)
          (get_or frame (i + 3) 0) (get_or-byte frame i all_bytes)
          (get_or-byte frame (i + 1) all_bytes) (get_or-byte frame (i + 2) all_bytes)
          (get_or-byte frame (i + 3) all_bytes))
        (ground (arith))

  module _ (supported_major maximum_supported_minor : ℕ)
      (p : Passes frame supported_major maximum_supported_minor) where
    header-reads : header_bytes (view_of frame).header (u16_at frame 16) ≡ reads 20 0 frame
    unfolding header_bytes view_of
    header-reads =
        let start : le16 frame_magic ≡ reads 2 0 frame = ap le16 (sym p.magic) ∙ u16-reads 0 in
        let zeros : le16 0 ≡ reads 2 18 frame = ap le16 (sym p.reserved) ∙ u16-reads 18 in
        λ i.
          start i
          ++ reads 4 2 frame
          ++ u16-reads 6 i
          ++ u32-reads 8 i
          ++ u32-reads 12 i
          ++ u16-reads 16 i
          ++ zeros i

    whole : reads 24 0 frame ++ drop 24 frame ≡ frame
    whole = sym (drop-reads 24 0 frame (omega (arith, p.size)))

    covered : header_bytes (view_of frame).header (length (drop 24 frame)) ≡ take 20 frame
    covered =
        ap (header_bytes (view_of frame).header) (omega (arith, length-drop 24 frame, p.size))
        ∙ header-reads
        ∙ ap (take 20) whole

    frame_of-view_of : frame_of (view_of frame).header (view_of frame).payload ≡ frame
    unfolding frame_of view_of
    frame_of-view_of =
        (λ i. covered i ++ le32 (crc32 (drop 24 frame) (crc32 (covered i) 0)) ++ drop 24 frame)
        ∙ (λ i. take 20 (sym whole i) ++ le32 (p.crc i) ++ drop 24 frame)
        ∙ (λ i. reads 20 0 frame ++ u32-reads 20 i ++ drop 24 frame)
        ∙ whole

    view-IsHeader : IsHeader (view_of frame).header
    unfolding view_of
    view-IsHeader =
        let byte = λ (i : ℕ). get_or-byte frame i all_bytes in
        record {
          major_byte = byte 2;
          minor_byte = byte 3;
          class_known = p.class;
          flags_byte = byte 5;
          flags_known = p.flags;
          type_word = omega (arith, byte 6, byte 7);
          id_word = omega (arith, byte 8, byte 9, byte 10, byte 11);
          sequence_word = omega (arith, byte 12, byte 13, byte 14, byte 15);
        }

    length-view : 24 + length (view_of frame).payload ≡ length frame
    unfolding view_of
    length-view = omega (arith, length-drop 24 frame, p.size)

    view-payload_small : length (view_of frame).payload ≤ maximum_payload_size
    view-payload_small = omega (arith, length-view, p.size, p.small)

versions :
    {frame : List ℕ} {supported_major maximum_supported_minor : ℕ}
    → Passes frame supported_major maximum_supported_minor
    → ((view_of frame).header.major ≡ supported_major)
      × ((view_of frame).header.minor ≤ maximum_supported_minor)
unfolding view_of
versions p = (p.major, p.minor)

-- If the bytes of a frame are accepted, the header's fields fit their types, its version is the
-- supported one, the payload is at most 4096 bytes, and encoding header and payload again, with
-- room for the frame, gives the same bytes.
pub decode_frame-encode_frame :
    (frame : List ℕ) (supported_major maximum_supported_minor capacity : ℕ) (v : FrameView)
    → All IsByte frame
    → decode_frame frame supported_major maximum_supported_minor ≡ (ok, v)
    → length frame ≤ capacity
    → (encode_frame v.header v.payload capacity ≡ (ok, frame))
      × IsHeader v.header
      × (v.header.major ≡ supported_major)
      × (v.header.minor ≤ maximum_supported_minor)
      × (length v.payload ≤ maximum_payload_size)
decode_frame-encode_frame frame supported_major maximum_supported_minor capacity v b accepted c =
    let p = accepted-Passes frame supported_major maximum_supported_minor accepted in
    let h = view-IsHeader frame b supported_major maximum_supported_minor p in
    let n = view-payload_small frame b supported_major maximum_supported_minor p in
    let room = length-view frame b supported_major maximum_supported_minor p in
    rw (accepted_view frame supported_major maximum_supported_minor accepted) (
      encode_frame-frame_of (view_of frame).header (view_of frame).payload capacity h n
            (omega (arith, room, c))
          ∙ ap (λ (bs : List ℕ). (ok, bs))
              (frame_of-view_of frame b supported_major maximum_supported_minor p),
      h,
      (versions p).0,
      (versions p).1,
      n,
    )
