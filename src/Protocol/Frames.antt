-- ===== src/Protocol/Frames.antt =====
-- Encoding and decoding a companion frame are inverse: `EncodeFrame` and `DecodeFrame` of
-- components/note4_companion/note4_companion_protocol.cc.
use Prim.Native.Nat.{bit_and}
use zectrix_note4_platform.Base.{
  All, List, arith, drop, get_or, le32, length, of_le16, of_le32, refl, take, u32_mod, ℕ, ◌%◌, ◌++◌,
  ◌+◌, ◌/◌, ◌<◌, ◌≡◌, ◌≤◌,
}
use zectrix_note4_platform.Crc.{crc32}
use zectrix_note4_platform.Crc.Bounds.{crc32-small}
use zectrix_note4_platform.Protocol.{
  encode_frame, maximum_payload_size, refused_flags, FrameHeader, header_bytes, view_of, ok,
  frame_magic, u16_at, u32_at, decode_frame,
}

abbrev pub IsByte : ℕ → Type 0
IsByte b = b < 256

-- Fields that fit their types, of a known class and with known flags.
pub record IsHeader (h : FrameHeader) : Type 0 where
  pub major_byte : h.major < 256
  pub minor_byte : h.minor < 256
  pub class_known : h.message_class ≤ 3
  pub flags_byte : h.flags < 256
  pub flags_known : bit_and h.flags refused_flags ≡ 0
  pub type_word : h.message_type < 65536
  pub id_word : h.request_id < u32_mod
  pub sequence_word : h.sequence < u32_mod

-- The frame that `encode_frame` writes.
unfoldable pub frame_of : FrameHeader → List ℕ → List ℕ
frame_of h payload =
    header_bytes h (length payload)
    ++ le32 (crc32 payload (crc32 (header_bytes h (length payload)) 0))
    ++ payload

pub length-frame_of :
    (h : FrameHeader) (payload : List ℕ) → length (frame_of h payload) ≡ 24 + length payload
unfolding frame_of header_bytes
length-frame_of h payload = omega arith

pub encode_frame-frame_of :
    (h : FrameHeader) (payload : List ℕ) (capacity : ℕ)
    → IsHeader h
    → length payload ≤ maximum_payload_size
    → 24 + length payload ≤ capacity
    → encode_frame h payload capacity ≡ (ok, frame_of h payload)
unfolding encode_frame frame_of
encode_frame-frame_of h payload capacity k n c = ground (arith, k.class_known, k.flags_known)

header_bytes-bytes : (h : FrameHeader) (size : ℕ) → IsHeader h → All IsByte (header_bytes h size)
unfolding header_bytes
header_bytes-bytes h size k = omega arith

crc_small :
    (h : FrameHeader) (payload : List ℕ)
    → IsHeader h
    → All IsByte payload
    → crc32 payload (crc32 (header_bytes h (length payload)) 0) < u32_mod
crc_small h payload k b =
    crc32-small payload (crc32 (header_bytes h (length payload)) 0)
      (crc32-small (header_bytes h (length payload)) 0 (omega arith)
        (header_bytes-bytes h (length payload) k))
      b

of_le32-le32 :
    (n : ℕ)
    → n < u32_mod
    → of_le32 (n % 256) (n / 256 % 256) (n / 65536 % 256) (n / 16777216 % 256) ≡ n
of_le32-le32 n h = omega arith

of_le16-le16 : (n : ℕ) → n < 65536 → of_le16 (n % 256) (n / 256 % 256) ≡ n
of_le16-le16 n h = omega arith

view_of-frame_of :
    (h : FrameHeader) (payload : List ℕ)
    → IsHeader h
    → view_of (frame_of h payload) ≡ record { header = h; payload = payload }
unfolding view_of frame_of header_bytes
view_of-frame_of h payload k =
    rw
      (
        of_le16-le16 h.message_type k.type_word,
        of_le32-le32 h.request_id k.id_word,
        of_le32-le32 h.sequence k.sequence_word,
      )
      refl

module _ (h : FrameHeader) (payload : List ℕ) (k : IsHeader h)
    (n : length payload ≤ maximum_payload_size) where
  size_field : u16_at (frame_of h payload) 16 ≡ length payload
  unfolding frame_of header_bytes
  size_field = of_le16-le16 (length payload) (omega arith)

  crc_field :
      All IsByte payload
      → u32_at (frame_of h payload) 20 ≡ crc32 payload (crc32 (header_bytes h (length payload)) 0)
  unfolding frame_of header_bytes
  crc_field b =
      of_le32-le32 (crc32 payload (crc32 (header_bytes h (length payload)) 0))
        (crc_small h payload k b)

  crc_covered :
      crc32 (drop 24 (frame_of h payload)) (crc32 (take 20 (frame_of h payload)) 0)
      ≡ crc32 payload (crc32 (header_bytes h (length payload)) 0)
  unfolding frame_of header_bytes
  crc_covered = refl

  front :
      (get_or (frame_of h payload) 2 0 ≡ h.major)
      × (get_or (frame_of h payload) 3 0 ≡ h.minor)
      × (get_or (frame_of h payload) 4 0 ≡ h.message_class)
      × (get_or (frame_of h payload) 5 0 ≡ h.flags)
      × (u16_at (frame_of h payload) 0 ≡ frame_magic)
      × (u16_at (frame_of h payload) 18 ≡ 0)
  unfolding frame_of header_bytes
  front = (refl, refl, refl, refl, refl, refl)

  pub decode_frame-frame_of :
      (supported_major maximum_supported_minor : ℕ)
      → All IsByte payload
      → h.major ≡ supported_major
      → h.minor ≤ maximum_supported_minor
      → decode_frame (frame_of h payload) supported_major maximum_supported_minor
        ≡ (ok, record { header = h; payload = payload })
  unfolding decode_frame
  decode_frame-frame_of supported_major maximum_supported_minor b m v = ground (
    arith,
    k.class_known,
    k.flags_known,
    size_field,
    crc_field b,
    crc_covered,
    front,
    length-frame_of h payload,
    view_of-frame_of h payload k,
  )
