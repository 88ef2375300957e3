-- ===== src/Protocol/Fragments.antt =====
-- Frames in fragments that fit a packet: `FragmentCount`, `EncodeFragment` and
-- `FragmentReassembler` of components/note4_companion/note4_companion_protocol.cc.
use Prim.Native.Nat.{bit_and}
use zectrix_note4_platform.Base.{
  Bool, List, [], add32, drop, false, get_or, if◌then◌else◌, le16, leb, length, ltb, min, not,
  sub32, take, true, ℕ, ◌&&◌, ◌*◌, ◌++◌, ◌+◌, ◌-◌, ◌/◌, ◌==◌, ◌||◌, ◌∷◌,
}
use zectrix_note4_platform.Protocol.{
  frame_magic, frame_header_size, maximum_payload_size, maximum_frame_size, ProtocolStatus, u16_at,
  ok, invalid_argument, buffer_too_small, bad_magic, oversized, truncated, unexpected_fragment,
  out_of_order_fragment, fragment_accepted, frame_complete, is_ok,
}

abbrev pub fragment_header_size : ℕ
fragment_header_size = 8

abbrev pub fragment_magic : ℕ
fragment_magic = 0xa7

abbrev pub fragment_version : ℕ
fragment_version = 1

abbrev pub fragment_start : ℕ
fragment_start = 1

abbrev pub fragment_end : ℕ
fragment_end = 2

-- `~(kFragmentStart | kFragmentEnd)`, an `int`.
abbrev pub refused_fragment_flags : ℕ
refused_fragment_flags = 0xffff_fffc

-- `std::size_t` has 32 bits on the device.
unfoldable pub fragment_count : ℕ → ℕ → ℕ
fragment_count frame_size packet_capacity =
    let data_capacity = packet_capacity - fragment_header_size in
    if frame_size == 0
      || ltb maximum_frame_size frame_size
      || leb packet_capacity fragment_header_size
    then 0
    else sub32 (add32 frame_size data_capacity) 1 / data_capacity

-- `output[2]`: the two bits are set one after the other, on 0.
unfoldable pub fragment_flags : Bool → Bool → ℕ
fragment_flags first last =
    (if first then fragment_start else 0) + (if last then fragment_end else 0)

unfoldable pub encode_fragment : List ℕ → ℕ → ℕ → ℕ → ℕ → ProtocolStatus × List ℕ
encode_fragment frame frame_id fragment_index packet_capacity output_capacity =
    let count = fragment_count (length frame) packet_capacity in
    let data_capacity = packet_capacity - fragment_header_size in
    let offset = fragment_index * data_capacity in
    let data_size = min data_capacity (length frame - offset) in
    if count == 0 || leb count fragment_index
    then (invalid_argument, [])
    else if ltb 0xffff offset
    then (oversized, [])
    else if ltb output_capacity (fragment_header_size + data_size)
    then (buffer_too_small, [])
    else (
      ok,
      fragment_magic
          ∷ fragment_version
          ∷ fragment_flags (fragment_index == 0) (fragment_index + 1 == count)
          ∷ 0
          ∷ (le16 frame_id ++ le16 offset ++ take data_size (drop offset frame)),
    )

-- `received` is the first `size_` bytes of the buffer; none behind them is ever read.
pub record FragmentReassembler : Type 0 where
  pub received : List ℕ
  pub expected_size : ℕ
  pub frame_id : ℕ
  pub is_active : Bool

unfoldable pub reset : FragmentReassembler → FragmentReassembler
reset r = record { received = []; expected_size = 0; frame_id = 0; is_active = false }

-- `expected_size_` once the header is there: the status that refuses it, or the reassembler.
unfoldable pub expect : FragmentReassembler → ProtocolStatus × FragmentReassembler
expect r =
    if r.expected_size == 0 && leb frame_header_size (length r.received)
    then if not (u16_at r.received 0 == frame_magic)
      then (bad_magic, reset r)
      else if ltb maximum_payload_size (u16_at r.received 16)
      then (oversized, reset r)
      else (ok, record r { expected_size = frame_header_size + u16_at r.received 16 })
    else (ok, r)

-- The end of `Accept`, from `if (expected_size_ != 0 && size_ > expected_size_)` on.
unfoldable pub conclude : Bool → FragmentReassembler → ProtocolStatus × FragmentReassembler
conclude end r =
    if not (r.expected_size == 0) && ltb r.expected_size (length r.received)
    then (oversized, reset r)
    else if end
    then if r.expected_size == 0 || not (length r.received == r.expected_size)
      then (truncated, reset r)
      else (frame_complete, record r { is_active = false })
    else if not (r.expected_size == 0) && length r.received == r.expected_size
    then (unexpected_fragment, reset r)
    else (fragment_accepted, r)

-- `Accept` from `if (offset != size_)` on.
unfoldable pub append_data :
    ℕ → Bool → List ℕ → FragmentReassembler → ProtocolStatus × FragmentReassembler
append_data offset end bytes r =
    let e = expect (record r { received = r.received ++ bytes }) in
    if not (offset == length r.received)
    then (out_of_order_fragment, r)
    else if ltb (maximum_frame_size - length r.received) (length bytes)
    then (oversized, reset r)
    else if is_ok e.0
    then conclude end e.1
    else e

unfoldable pub accept : List ℕ → FragmentReassembler → ProtocolStatus × FragmentReassembler
accept packet r =
    let flags = get_or packet 2 0 in
    let start = not (bit_and flags fragment_start == 0) in
    let end = not (bit_and flags fragment_end == 0) in
    let frame_id = u16_at packet 4 in
    let offset = u16_at packet 6 in
    let bytes = drop fragment_header_size packet in
    if leb (length packet) fragment_header_size
    then (unexpected_fragment, r)
    else if not (get_or packet 0 0 == fragment_magic)
        || not (get_or packet 1 0 == fragment_version)
        || not (get_or packet 3 0 == 0)
        || not (bit_and flags refused_fragment_flags == 0)
    then (unexpected_fragment, r)
    else if start
    then if not (offset == 0)
      then (out_of_order_fragment, r)
      else append_data offset end bytes (record (reset r) { is_active = true; frame_id = frame_id })
    else if not r.is_active || not (frame_id == r.frame_id)
    then (unexpected_fragment, r)
    else append_data offset end bytes r
