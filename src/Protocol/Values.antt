-- ===== src/Protocol/Values.antt =====
-- The values of the Hello fields: clock sample, enrollment proof, companion identity and HelloAck
-- status. components/note4_companion/note4_companion_protocol.cc. An encoder returns its status and
-- the bytes written; a decoder its status, with the values if it is `ok`.
pub mod RoundTrip
use Prim.Native.Nat.{bit_and}
use zectrix_note4_platform.Base.{
  Bool, List, Option, [], drop, get_or, if◌then◌else◌, le16, le32, length, ltb, none, not, some,
  take, u32_mod, ℕ, ◌&&◌, ◌*◌, ◌++◌, ◌+◌, ◌-◌, ◌/◌, ◌==◌, ◌||◌, ◌∷◌,
}
use zectrix_note4_platform.Base.Int.{ℤ, ltb_int, to_u32, of_u32, pos, negsuc}
use zectrix_note4_platform.Protocol.{
  ProtocolStatus, u16_at, u32_at, ok, invalid_argument, buffer_too_small, malformed_tlv,
}

-- `int64_t` and `int32_t` fields.
pub record ClockSample : Type 0 where
  pub unix_milliseconds : ℤ
  pub utc_offset_seconds : ℤ

abbrev pub clock_sample_value_size : ℕ
clock_sample_value_size = 12

abbrev pub largest_offset : ℕ
largest_offset = 50400

-- `offset < -50400 || offset > 50400`.
abbrev pub is_far : ℤ → Bool
is_far offset = ltb_int offset (negsuc (largest_offset - 1)) || ltb_int (pos largest_offset) offset

-- The bits of an `int64_t` that is not negative.
abbrev pub to_u64 : ℤ → ℕ
to_u64 (pos n) = n
to_u64 (negsuc n) = 0

unfoldable pub encode_clock_sample_value : ClockSample → ℕ → ProtocolStatus × List ℕ
encode_clock_sample_value s capacity =
    if ltb_int s.unix_milliseconds (pos 0) || is_far s.utc_offset_seconds
    then (invalid_argument, [])
    else if ltb capacity clock_sample_value_size
    then (buffer_too_small, [])
    else (
      ok,
      le32 (to_u64 s.unix_milliseconds)
          ++ le32 (to_u64 s.unix_milliseconds / u32_mod)
          ++ le32 (to_u32 s.utc_offset_seconds),
    )

unfoldable pub decode_clock_sample_value : List ℕ → ProtocolStatus × Option ClockSample
decode_clock_sample_value value =
    let unix_ms = u32_at value 0 + u32_at value 4 * u32_mod in
    let offset = of_u32 (u32_at value 8) in
    if not (length value == clock_sample_value_size)
    then (invalid_argument, none)
    else if ltb 0x7fff_ffff_ffff_ffff unix_ms || is_far offset
    then (invalid_argument, none)
    else (ok, some (record { unix_milliseconds = pos unix_ms; utc_offset_seconds = offset }))

abbrev pub proof_value_size : ℕ
proof_value_size = 36

-- `token` and `companion_id` are arrays of 16 bytes.
unfoldable pub encode_enrollment_proof_value : ℕ → List ℕ → List ℕ → ℕ → ProtocolStatus × List ℕ
encode_enrollment_proof_value generation token companion_id capacity =
    if ltb capacity proof_value_size
    then (buffer_too_small, [])
    else (ok, le32 generation ++ take 16 token ++ take 16 companion_id)

unfoldable pub decode_enrollment_proof_value :
    List ℕ → ProtocolStatus × Option (ℕ × List ℕ × List ℕ)
decode_enrollment_proof_value value =
    if not (length value == proof_value_size)
    then (malformed_tlv, none)
    else (ok, some (u32_at value 0, take 16 (drop 4 value), take 16 (drop 20 value)))

unfoldable pub encode_companion_identity_value : List ℕ → ℕ → ProtocolStatus × List ℕ
encode_companion_identity_value companion_id capacity =
    if ltb capacity 16 then (buffer_too_small, []) else (ok, take 16 companion_id)

unfoldable pub decode_companion_identity_value : List ℕ → ProtocolStatus × Option (List ℕ)
decode_companion_identity_value value =
    if not (length value == 16) then (malformed_tlv, none) else (ok, some (take 16 value))

abbrev pub hello_ack_status_rejected : ℕ
hello_ack_status_rejected = 1

-- `~kHelloAckPeerAuthorizedFlag`, an `int`.
abbrev pub refused_ack_flags : ℕ
refused_ack_flags = 0xffff_fffe

unfoldable pub encode_hello_ack_status_value : ℕ → ℕ → ℕ → ℕ → ProtocolStatus × List ℕ
encode_hello_ack_status_value status flags error_reason capacity =
    if ltb capacity 4 then (buffer_too_small, []) else (ok, status ∷ flags ∷ le16 error_reason)

unfoldable pub decode_hello_ack_status_value : List ℕ → ProtocolStatus × Option (ℕ × ℕ × ℕ)
decode_hello_ack_status_value value =
    let status = get_or value 0 0 in
    let flags = get_or value 1 0 in
    if not (length value == 4)
    then (malformed_tlv, none)
    else if ltb hello_ack_status_rejected status
        || not (bit_and flags refused_ack_flags == 0)
        || (status == hello_ack_status_rejected && not (flags == 0))
        || (status == 0 && not (u16_at value 2 == 0))
    then (malformed_tlv, none)
    else (ok, some (status, flags, u16_at value 2))
