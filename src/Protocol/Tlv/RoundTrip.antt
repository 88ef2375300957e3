-- ===== src/Protocol/Tlv/RoundTrip.antt =====
-- The fields that a writer has added are read back in order: `TlvWriter` and `TlvReader` of
-- components/note4_companion/note4_companion_protocol.cc.
use Prim.Native.Nat.{bit_and}
use zectrix_note4_platform.Base.{
  All, Bool, List, [], ap, append-nil, append_assoc, arith, drop, drop-length_append, false,
  if◌then◌else◌, le16, length, length-append, none, not, refl, some, suc, sym, take,
  take-length_append, true, zero, ℕ, ◌*◌, ◌++◌, ◌+◌, ◌<◌, ◌==◌, ◌∙◌, ◌∷◌, ◌≡◌, ◌≤◌,
}
use zectrix_note4_platform.Base.Bits.{bit_and_split, bit_and-zero, bit_and-ones, ones}
use zectrix_note4_platform.Protocol.{ProtocolStatus, is_ok, ok, invalid_argument, u16_at}
use zectrix_note4_platform.Protocol.Tlv.{
  add, maximum_tlv_value_size, required_field_bit, type_bits, TlvWriter, TlvReader, TlvField, next,
  writer_start,
}

abbrev pub raw_type : TlvField → ℕ
raw_type f = (if f.is_required then required_field_bit else 0) + f.type

abbrev IsField : TlvField → Type 0
IsField f = (f.type < 0x8000) × (length f.value ≤ maximum_tlv_value_size)

-- The calls of `Add`, up to the first that fails.
unfoldable pub add_all : List TlvField → TlvWriter → ProtocolStatus × TlvWriter
add_all [] w = (ok, w)
add_all (f ∷ fs) w =
    let next_writer = add (raw_type f) f.value w in
    let rest = add_all fs next_writer.1 in if is_ok next_writer.0 then rest else next_writer

-- The calls of `Next`, up to the first that gives no field, at most `fuel` of them.
unfoldable pub read_all : ℕ → TlvReader → ProtocolStatus × List TlvField
read_all zero r = (invalid_argument, [])
read_all (suc fuel) r =
    let found = next r in
    let rest = read_all fuel found.2 in
    elim found.1 [ none ↦ (found.0, []) | some f ↦ (rest.0, f ∷ rest.1) ]

encoded : TlvField → List ℕ
encoded f = le16 (raw_type f) ++ (le16 (length f.value) ++ f.value)

encoded_all : List TlvField → List ℕ
encoded_all [] = []
encoded_all (f ∷ fs) = encoded f ++ encoded_all fs

length-encoded : (f : TlvField) → length (encoded f) ≡ 4 + length f.value
unfolding encoded
length-encoded f = omega arith

-- The top bit, 1 or 0, and the 15 bits of the type.
bits_apart :
    (top type : ℕ)
    → type < 0x8000
    → (bit_and (0x8000 * top + type) type_bits ≡ 0x8000 * bit_and top 0x1fffe + type)
      × (bit_and (0x8000 * top + type) required_field_bit ≡ 0x8000 * bit_and top 1)
bits_apart top type h = (
  omega
      (arith, bit_and_split 15 top type 0x1fffe (ones 15) h (omega arith), bit_and-ones 15 type h),
  omega (arith, bit_and_split 15 top type 1 0 h (omega arith), bit_and-zero type),
)

raw_type-parts :
    (f : TlvField)
    → f.type < 0x8000
    → (bit_and (raw_type f) type_bits ≡ f.type)
      × (not (bit_and (raw_type f) required_field_bit == 0) ≡ f.is_required)
raw_type-parts f h = of_required f.is_required
  where
    no_top : 0 + f.type ≡ f.type
    no_top = omega arith

    of_required :
        (required : Bool)
        → let raw : ℕ = (if required then required_field_bit else 0) + f.type in
          (bit_and raw type_bits ≡ f.type) × (not (bit_and raw required_field_bit == 0) ≡ required)
    of_required true = let p = bits_apart 1 f.type h in (p.0 ∙ no_top, rw (p.1) refl)
    of_required false = let p = bits_apart 0 f.type h in (p.0 ∙ no_top, rw (p.1) refl)

raw_type-small : (f : TlvField) → f.type < 0x8000 → raw_type f < 65536
raw_type-small f h = ground arith

add-encoded :
    (f : TlvField) (w : TlvWriter)
    → IsField f
    → length w.output + (4 + length f.value) ≤ w.capacity
    → add (raw_type f) f.value w ≡ (ok, record w { output = w.output ++ encoded f })
unfolding add encoded
add-encoded f w h room = ground arith

-- The bytes of the writer with the fields behind them.
add_all-encoded :
    (fs : List TlvField) (w : TlvWriter)
    → All IsField fs
    → length w.output + length (encoded_all fs) ≤ w.capacity
    → add_all fs w ≡ (ok, record w { output = w.output ++ encoded_all fs })
unfolding add_all encoded_all
add_all-encoded [] w h room =
    ap (λ (bs : List ℕ). (ok, record w { output = bs })) (sym (append-nil w.output))
add_all-encoded (f ∷ fs) w h room =
    let sizes = length-append (encoded f) (encoded_all fs) in
    let longer = length-append w.output (encoded f) in
    let now = add-encoded f w h.0 (omega (arith, room, sizes, length-encoded f)) in
    let later =
      add_all-encoded fs (record w { output = w.output ++ encoded f }) h.1
        (omega (arith, longer, sizes, room)) in
    rw (now, later)
      (ap (λ (bs : List ℕ). (ok, record w { output = bs }))
        (append_assoc w.output (encoded f) (encoded_all fs)))

-- A field behind others, read.
module _ (f : TlvField) (before behind : List ℕ) (k : IsField f) where
  abbrev at_field : TlvReader
  at_field = record { input = before ++ (encoded f ++ behind); offset = length before }

  taken : take (length f.value) (drop 4 (encoded f ++ behind)) ≡ f.value
  unfolding encoded
  taken = take-length_append f.value behind

  type_field : u16_at (encoded f ++ behind) 0 ≡ raw_type f
  unfolding encoded
  type_field = omega (arith, raw_type-small f k.0)

  size_field : u16_at (encoded f ++ behind) 2 ≡ length f.value
  unfolding encoded
  size_field = omega (arith, k.1)

  next-encoded : next at_field ≡ (
    ok,
    some f,
    record {
      input = before ++ (encoded f ++ behind);
      offset = length before + (4 + length f.value);
    },
  )
  unfolding next
  next-encoded =
      let sizes = length-append before (encoded f ++ behind) in
      let sizes' = length-append (encoded f) behind in
      let parts = raw_type-parts f k.0 in
      rw
        (
          drop-length_append before (encoded f ++ behind),
          type_field,
          size_field,
          parts.0,
          parts.1,
          taken,
        )
        (ground (arith, sizes, sizes', length-encoded f, k.1))

next_end :
    (before : List ℕ)
    → let r : TlvReader = record { input = before ++ []; offset = length before } in
      next r ≡ (ok, none, r)
unfolding next
next_end before = ground (arith, ap length (append-nil before))

abbrev found_first : TlvField → ProtocolStatus × List TlvField → ProtocolStatus × List TlvField
found_first f rest = (rest.0, f ∷ rest.1)

module _ (n : ℕ) (r : TlvReader) where
  read_all-none : next r ≡ (ok, none, r) → read_all (suc n) r ≡ (ok, [])
  unfolding read_all
  read_all-none e = ground arith

  read_all-some :
      (f : TlvField) (r' : TlvReader)
      → next r ≡ (ok, some f, r')
      → read_all (suc n) r ≡ found_first f (read_all n r')
  unfolding read_all
  read_all-some f r' e = ground arith

read_all-encoded :
    (fs : List TlvField) (before : List ℕ)
    → All IsField fs
    → read_all
        (suc (length fs))
        (record { input = before ++ encoded_all fs; offset = length before })
      ≡ (ok, fs)
unfolding encoded_all
read_all-encoded [] before h =
    read_all-none 0 (record { input = before ++ []; offset = length before }) (next_end before)
read_all-encoded (f ∷ fs) before h =
    let place : length before + (4 + length f.value) ≡ length (before ++ encoded f) =
      omega (arith, length-append before (encoded f), length-encoded f) in
    let regrouped = append_assoc before (encoded f) (encoded_all fs) in
    let from : List ℕ → ℕ → ProtocolStatus × List TlvField =
      λ bs k. found_first f (read_all (suc (length fs)) (record { input = bs; offset = k })) in
    read_all-some (suc (length fs)) (at_field f before (encoded_all fs) h.0) f _
      (next-encoded f before (encoded_all fs) h.0)
    ∙ (λ i. from (sym regrouped i) (place i))
    ∙ ap (found_first f) (read_all-encoded fs (before ++ encoded f) h.1)

-- The bytes that fields take.
abbrev pub size_of : List TlvField → ℕ
size_of [] = 0
size_of (f ∷ fs) = 4 + length f.value + size_of fs

length-encoded_all : (fs : List TlvField) → length (encoded_all fs) ≡ size_of fs
unfolding encoded_all
length-encoded_all [] = refl
length-encoded_all (f ∷ fs) =
    omega
      (arith, length-append (encoded f) (encoded_all fs), length-encoded f, length-encoded_all fs)

-- If every field has a type of 15 bits and a value of at most 2048 bytes, and the buffer has room
-- for the values and four bytes for each, then a writer adds all of them, and a reader of what was
-- written gives the same fields in order, required or not as they were, and then none, in as many
-- calls as there are fields and one more.
pub add_all-read_all :
    (fs : List TlvField) (capacity : ℕ)
    → All (λ f. (f.type < 0x8000) × (length f.value ≤ maximum_tlv_value_size)) fs
    → size_of fs ≤ capacity
    → let written = add_all fs (writer_start capacity) in
      (written.0 ≡ ok)
      × (length written.1.output ≡ size_of fs)
      × (read_all (suc (length fs)) (record { input = written.1.output; offset = 0 }) ≡ (ok, fs))
add_all-read_all fs capacity h room =
    rw (add_all-encoded fs (writer_start capacity) h (omega (arith, length-encoded_all fs, room)))
      (refl, length-encoded_all fs, read_all-encoded fs [] h)
