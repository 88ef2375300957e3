-- ===== src/Protocol/Tlv.antt =====
-- The type-length-value fields of a payload: `TlvWriter` and `TlvReader` of
-- components/note4_companion/note4_companion_protocol.cc.
pub mod RoundTrip
use Prim.Native.Nat.{bit_and}
use zectrix_note4_platform.Base.{
  Bool, List, Option, [], drop, if◌then◌else◌, le16, le32, length, ltb, min, none, not, some, take,
  ℕ, ◌++◌, ◌+◌, ◌-◌, ◌==◌, ◌||◌,
}
use zectrix_note4_platform.Protocol.{
  ProtocolStatus, u16_at, ok, buffer_too_small, oversized, malformed_tlv,
}

abbrev pub maximum_tlv_value_size : ℕ
maximum_tlv_value_size = 2048

abbrev pub required_field_bit : ℕ
required_field_bit = 0x8000

-- `~kRequiredFieldBit`, an `int`.
abbrev pub type_bits : ℕ
type_bits = 0xffff_7fff

-- `output` is the first `size_` bytes of the caller's buffer, of `capacity` bytes.
pub record TlvWriter : Type 0 where
  pub output : List ℕ
  pub capacity : ℕ

abbrev pub writer_start : ℕ → TlvWriter
writer_start capacity = record { output = []; capacity = capacity }

unfoldable pub add : ℕ → List ℕ → TlvWriter → ProtocolStatus × TlvWriter
add type value w =
    if ltb maximum_tlv_value_size (length value)
    then (oversized, w)
    else if ltb (w.capacity - min w.capacity (length w.output)) (4 + length value)
    then (buffer_too_small, w)
    else (ok, record w { output = w.output ++ (le16 type ++ (le16 (length value) ++ value)) })

unfoldable pub add_uint32 : ℕ → ℕ → TlvWriter → ProtocolStatus × TlvWriter
unfolding add
add_uint32 type value w = add type (le32 value) w

pub record TlvReader : Type 0 where
  pub input : List ℕ
  pub offset : ℕ

pub record TlvField : Type 0 where
  pub type : ℕ
  pub is_required : Bool
  pub value : List ℕ

-- The status, the field if there is one, and the reader behind it.
unfoldable pub next : TlvReader → ProtocolStatus × Option TlvField × TlvReader
next r =
    let rest = drop r.offset r.input in
    let raw_type = u16_at rest 0 in
    let value_size = u16_at rest 2 in
    if r.offset == length r.input
    then (ok, none, r)
    else if ltb (length r.input - r.offset) 4
    then (malformed_tlv, none, r)
    else if ltb maximum_tlv_value_size value_size || ltb (length r.input - r.offset - 4) value_size
    then (malformed_tlv, none, r)
    else (
      ok,
      some (record {
        type = bit_and raw_type type_bits;
        is_required = not (bit_and raw_type required_field_bit == 0);
        value = take value_size (drop 4 rest);
      }),
      record r { offset = r.offset + (4 + value_size) },
    )
