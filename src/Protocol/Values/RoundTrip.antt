-- ===== src/Protocol/Values/RoundTrip.antt =====
-- What is encoded as the value of a Hello field is decoded again:
-- components/note4_companion/note4_companion_protocol.cc.
use Prim.Native.Nat.{bit_and}
use zectrix_note4_platform.Base.{
  Bool, List, ap, arith, false, if◌then◌else◌, le32, leb, length, ltb, none, of_le32, refl, some,
  u32_mod, ℕ, ◌%◌, ◌&&◌, ◌*◌, ◌++◌, ◌+◌, ◌/◌, ◌<◌, ◌==◌, ◌||◌, ◌≡◌, ◌≤◌,
}
use zectrix_note4_platform.Base.Int.{ℤ, to_u32, of_u32, pos, negsuc}
use zectrix_note4_platform.Base.Bits.{bit_and-zero, bit_and_split, ones, bit_and-ones}
use zectrix_note4_platform.Protocol.{ok, malformed_tlv}
use zectrix_note4_platform.Protocol.Values.{
  ClockSample, clock_sample_value_size, is_far, encode_clock_sample_value,
  decode_clock_sample_value, hello_ack_status_rejected, refused_ack_flags,
  encode_hello_ack_status_value, decode_hello_ack_status_value,
}

clock_words :
    (ms : ℕ)
    → ms ≤ 0x7fff_ffff_ffff_ffff
    → of_le32 (ms % 256) (ms / 256 % 256) (ms / 65536 % 256) (ms / 16777216 % 256)
        + of_le32
            (ms / u32_mod % 256)
            (ms / u32_mod / 256 % 256)
            (ms / u32_mod / 65536 % 256)
            (ms / u32_mod / 16777216 % 256)
          * u32_mod
      ≡ ms
clock_words ms h = omega arith

offset_word : (o : ℤ) → is_far o ≡ false → of_u32 (to_u32 o) ≡ o
offset_word (pos n) h = ground arith
offset_word (negsuc n) h = ground arith

to_u32-small : (o : ℤ) → to_u32 o < u32_mod
to_u32-small (pos n) = omega arith
to_u32-small (negsuc n) = omega arith

word32 :
    (n : ℕ)
    → n < u32_mod
    → of_le32 (n % 256) (n / 256 % 256) (n / 65536 % 256) (n / 16777216 % 256) ≡ n
word32 n h = omega arith

abbrev clock_bytes : ℕ → ℤ → List ℕ
clock_bytes ms offset = le32 ms ++ le32 (ms / u32_mod) ++ le32 (to_u32 offset)

module _ (ms : ℕ) (offset : ℤ) (near : is_far offset ≡ false) where
  abbrev sample : ClockSample
  sample = record { unix_milliseconds = pos ms; utc_offset_seconds = offset }

  clock_encoded :
      (capacity : ℕ)
      → clock_sample_value_size ≤ capacity
      → encode_clock_sample_value sample capacity ≡ (ok, clock_bytes ms offset)
  unfolding encode_clock_sample_value
  clock_encoded capacity c = ground arith

  clock_decoded :
      ms ≤ 0x7fff_ffff_ffff_ffff
      → decode_clock_sample_value (clock_bytes ms offset) ≡ (ok, some sample)
  unfolding decode_clock_sample_value
  clock_decoded h =
      let in_range : ltb 0x7fff_ffff_ffff_ffff ms ≡ false = ground arith in
      rw
        (
          clock_words ms h,
          word32 (to_u32 offset) (to_u32-small offset),
          offset_word offset near,
          near,
          in_range,
        )
        refl

-- A sample of a time from 0 to the largest `int64_t` and of an offset within 14 hours either way is
-- encoded in 12 bytes, if they fit, and they decode to the sample.
pub encode-decode_clock_sample_value :
    (ms : ℕ) (offset : ℤ) (capacity : ℕ)
    → ms ≤ 0x7fff_ffff_ffff_ffff
    → is_far offset ≡ false
    → clock_sample_value_size ≤ capacity
    → let s : ClockSample = record { unix_milliseconds = pos ms; utc_offset_seconds = offset } in
      let e = encode_clock_sample_value s capacity in
      (e.0 ≡ ok) × (length e.1 ≡ 12) × (decode_clock_sample_value e.1 ≡ (ok, some s))
encode-decode_clock_sample_value ms offset capacity h near c =
    rw (clock_encoded ms offset near capacity c) (refl, refl, clock_decoded ms offset near h)

above_lowest : (f : ℕ) → f < 256 → bit_and f refused_ack_flags ≡ 2 * (f / 2)
above_lowest f h =
    let split = bit_and_split 1 (f / 2) (f % 2) (ones 31) 0 (omega arith) (omega arith) in
    let parts : bit_and f refused_ack_flags ≡ bit_and (2 * (f / 2) + f % 2) refused_ack_flags =
      ap (λ (a : ℕ). bit_and a refused_ack_flags)
        (let e : f ≡ 2 * (f / 2) + f % 2 = omega arith in e) in
    omega (arith, parts, split, bit_and-ones 31 (f / 2) (omega arith), bit_and-zero (f % 2))

abbrev is_answer : ℕ → ℕ → ℕ → Bool
is_answer status flags reason =
    (status == 0 && leb flags 1 && reason == 0)
    || (status == hello_ack_status_rejected && flags == 0)

-- A status byte, a flags byte and a 16-bit reason, encoded, are decoded to the same three if they
-- are an acceptance with no reason and at most the authorized flag, or a rejection with no flags;
-- any other three are refused as malformed.
pub encode-decode_hello_ack_status_value :
    (status flags reason : ℕ)
    → status < 256
    → flags < 256
    → reason < 65536
    → decode_hello_ack_status_value (encode_hello_ack_status_value status flags reason 4).1 ≡ (
        if is_answer status flags reason
        then (ok, some (status, flags, reason))
        else (malformed_tlv, none))
unfolding encode_hello_ack_status_value decode_hello_ack_status_value
encode-decode_hello_ack_status_value status flags reason hs hf hr =
    ground (arith, above_lowest flags hf)
