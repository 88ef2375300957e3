-- ===== src/Protocol.antt =====
-- The companion protocol: frames, as `EncodeFrame` and `DecodeFrame` of
-- components/note4_companion/note4_companion_protocol.cc. Buffers are lists of bytes; an encoder
-- takes the capacity of the output and returns its status with the bytes it wrote. The pointers are
-- those of the callers' own buffers, never null.
pub mod Frames
pub mod Accepted
pub mod Values
pub mod Tlv
pub mod Fragments
pub mod Reassembly
pub mod Delivery
pub mod EndToEnd
pub mod Completion
mod Tests
use Prim.Native.Nat.{bit_and}
use zectrix_note4_platform.Base.{
  Bool, List, [], drop, false, get_or, if◌then◌else◌, le16, le32, leb, length, ltb, not, of_le16,
  of_le32, take, true, ℕ, ◌++◌, ◌+◌, ◌==◌, ◌||◌, ◌∷◌,
}
use zectrix_note4_platform.Crc.{crc32}

abbrev pub frame_magic : ℕ
frame_magic = 0x435a

abbrev pub protocol_major : ℕ
protocol_major = 1

abbrev pub frame_header_size : ℕ
frame_header_size = 24

abbrev pub maximum_payload_size : ℕ
maximum_payload_size = 4096

abbrev pub maximum_frame_size : ℕ
maximum_frame_size = 4120

-- `~kAllowedFrameFlags`, an `int`.
abbrev pub refused_flags : ℕ
refused_flags = 0xffff_fff8

pub data ProtocolStatus : Type 0 where
  ok invalid_argument buffer_too_small bad_magic unsupported_version invalid_message_class :
      ProtocolStatus
  invalid_flags invalid_reserved_field oversized truncated crc_mismatch : ProtocolStatus
  malformed_tlv unexpected_fragment out_of_order_fragment fragment_accepted : ProtocolStatus
  frame_complete : ProtocolStatus

abbrev pub is_ok : ProtocolStatus → Bool
is_ok ok = true
is_ok _ = false

-- `message_class` is the byte of a `MessageClass`, which a cast can make any byte.
pub record FrameHeader : Type 0 where
  pub major : ℕ
  pub minor : ℕ
  pub message_class : ℕ
  pub flags : ℕ
  pub message_type : ℕ
  pub request_id : ℕ
  pub sequence : ℕ

pub record FrameView : Type 0 where
  pub header : FrameHeader
  pub payload : List ℕ

abbrev pub empty_view : FrameView
empty_view = record {
  header = record {
    major = protocol_major;
    minor = 0;
    message_class = 0;
    flags = 0;
    message_type = 0;
    request_id = 0;
    sequence = 0;
  };
  payload = [];
}

-- `GetUInt16` and `GetUInt32` at an offset.
abbrev pub u16_at : List ℕ → ℕ → ℕ
u16_at bs i = of_le16 (get_or bs i 0) (get_or bs (i + 1) 0)

abbrev pub u32_at : List ℕ → ℕ → ℕ
u32_at bs i =
    of_le32 (get_or bs i 0) (get_or bs (i + 1) 0) (get_or bs (i + 2) 0) (get_or bs (i + 3) 0)

abbrev pub is_valid_message_class : ℕ → Bool
is_valid_message_class value = leb value 3

-- The first 20 bytes of a frame, which the CRC covers.
unfoldable pub header_bytes : FrameHeader → ℕ → List ℕ
header_bytes h size =
    le16 frame_magic
    ++ h.major ∷ h.minor ∷ h.message_class ∷ h.flags ∷ []
    ++ le16 h.message_type
    ++ le32 h.request_id
    ++ le32 h.sequence
    ++ le16 size
    ++ le16 0

unfoldable pub encode_frame : FrameHeader → List ℕ → ℕ → ProtocolStatus × List ℕ
encode_frame h payload capacity =
    if not (is_valid_message_class h.message_class)
    then (invalid_message_class, [])
    else if not (bit_and h.flags refused_flags == 0)
    then (invalid_flags, [])
    else if ltb maximum_payload_size (length payload)
    then (oversized, [])
    else if ltb capacity (frame_header_size + length payload)
    then (buffer_too_small, [])
    else (
      ok,
      header_bytes h (length payload)
          ++ le32 (crc32 payload (crc32 (header_bytes h (length payload)) 0))
          ++ payload,
    )

-- `output->header` and `output->payload` of an accepted frame.
unfoldable pub view_of : List ℕ → FrameView
view_of frame = record {
  header = record {
    major = get_or frame 2 0;
    minor = get_or frame 3 0;
    message_class = get_or frame 4 0;
    flags = get_or frame 5 0;
    message_type = u16_at frame 6;
    request_id = u32_at frame 8;
    sequence = u32_at frame 12;
  };
  payload = drop frame_header_size frame;
}

unfoldable pub decode_frame : List ℕ → ℕ → ℕ → ProtocolStatus × FrameView
decode_frame frame supported_major maximum_supported_minor =
    let expected_size = frame_header_size + u16_at frame 16 in
    if ltb (length frame) frame_header_size
    then (truncated, empty_view)
    else if not (u16_at frame 0 == frame_magic)
    then (bad_magic, empty_view)
    else if not (get_or frame 2 0 == supported_major)
        || ltb maximum_supported_minor (get_or frame 3 0)
    then (unsupported_version, empty_view)
    else if not (is_valid_message_class (get_or frame 4 0))
    then (invalid_message_class, empty_view)
    else if not (bit_and (get_or frame 5 0) refused_flags == 0)
    then (invalid_flags, empty_view)
    else if not (u16_at frame 18 == 0)
    then (invalid_reserved_field, empty_view)
    else if ltb maximum_payload_size (u16_at frame 16)
    then (oversized, empty_view)
    else if ltb (length frame) expected_size
    then (truncated, empty_view)
    else if ltb expected_size (length frame)
    then (oversized, empty_view)
    else if not (crc32 (drop frame_header_size frame) (crc32 (take 20 frame) 0) == u32_at frame 20)
    then (crc_mismatch, empty_view)
    else (ok, view_of frame)
