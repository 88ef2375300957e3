-- ===== src/Host/Wire.antt =====
-- Frames on the wire: a header and the payload under COBS, which leaves zero for the delimiter.
-- `EncodeFrame` and `DecodeFrame` of components/note4_host/note4_host_protocol.cc, over lists of
-- bytes.
pub mod Blocks
pub mod RoundTrip
pub mod Frames
use zectrix_note4_platform.Base.{
  Bool, List, [], drop, false, if◌then◌else◌, le32, leb, length, ltb, not, of_le16, of_le32, set,
  suc, take, true, zero, ℕ, ◌%◌, ◌&&◌, ◌++◌, ◌+◌, ◌-◌, ◌/◌, ◌==◌, ◌||◌, ◌∷◌,
}
use zectrix_note4_platform.Host.{Frame, payload_size, header_size, wire_size}

-- 'N', '4', 'U', '1', then the fields, the words by `Write32`.
unfoldable pub header : Frame → List ℕ
header f =
    b'N'
    ∷ b'4'
    ∷ b'U'
    ∷ b'1'
    ∷ f.operation
    ∷ f.status
    ∷ f.size % 256
    ∷ f.size / 256 % 256
    ∷ (le32 f.id ++ le32 f.session)

-- The loop's variables: `output[0 .. written)`, `code_at` and `code`. A slot that a code will fill
-- later holds 0 till then.
pub record Encoder : Type 0 where
  pub output : List ℕ
  pub code_at : ℕ
  pub code : ℕ

abbrev pub encoder_start : Encoder
encoder_start = record { output = 0 ∷ []; code_at = 0; code = 1 }

-- `output[code_at] = code; code_at = written++; code = 1`.
unfoldable pub close_block : Encoder → Encoder
close_block e = record {
  output = set e.output e.code_at e.code ++ 0 ∷ [];
  code_at = length e.output;
  code = 1;
}

unfoldable pub put_byte : Encoder → ℕ → Encoder
unfolding close_block
put_byte e value =
    if value == 0
    then close_block e
    else let e' : Encoder = record e { output = e.output ++ value ∷ []; code = e.code + 1 } in
      if e.code + 1 == 255 then close_block e' else e'

unfoldable pub put_bytes : Encoder → List ℕ → Encoder
put_bytes e [] = e
put_bytes e (v ∷ vs) = put_bytes (put_byte e v) vs

unfoldable pub finish : Encoder → List ℕ
finish e = set e.output e.code_at e.code ++ 0 ∷ []

-- The bytes written, none if the arguments are refused; `capacity` is that of the caller's buffer.
unfoldable pub encode_frame : Frame → ℕ → List ℕ
encode_frame f capacity =
    if ltb payload_size f.size || ltb capacity wire_size
    then []
    else finish (put_bytes encoder_start (header f ++ take f.size f.payload))

-- What a loop of the decoder leaves: whether it goes on, the input from the cursor, and the bytes
-- decoded so far.
pub record Decoder : Type 0 where
  pub is_good : Bool
  pub input : List ℕ
  pub decoded : List ℕ

-- `append`.
unfoldable pub append : List ℕ → List ℕ → ℕ → Decoder
append input decoded value =
    if leb (header_size + payload_size) (length decoded)
    then record { is_good = false; input = input; decoded = decoded }
    else record { is_good = true; input = input; decoded = decoded ++ value ∷ [] }

-- The inner loop, `count` bytes that may not be zero. The outer loop has seen to it that they are
-- there.
unfoldable pub read_block : ℕ → List ℕ → List ℕ → Decoder
read_block zero input decoded = record { is_good = true; input = input; decoded = decoded }
read_block (suc n) [] decoded = record { is_good = false; input = []; decoded = decoded }
read_block (suc n) (v ∷ input) decoded =
    let next = append input decoded v in
    let rest = read_block n input next.decoded in
    if v == 0
    then record { is_good = false; input = v ∷ input; decoded = decoded }
    else if next.is_good
    then rest
    else next

abbrev is_empty : List ℕ → Bool
is_empty [] = true
is_empty (x ∷ xs) = false

-- One round of the outer loop, from a code and the input behind it.
unfoldable pub read_code : ℕ → List ℕ → List ℕ → Decoder
read_code code input decoded =
    if code == 0 || ltb (length input) (code - 1)
    then record { is_good = false; input = input; decoded = decoded }
    else let b = read_block (code - 1) input decoded in
      if not b.is_good
      then b
      else if ltb code 255 && not (is_empty b.input)
      then append b.input b.decoded 0
      else b

-- The outer loop on fuel; every round takes a byte, so the input's length is enough.
unfoldable pub read_codes : ℕ → List ℕ → List ℕ → Decoder
read_codes fuel [] decoded = record { is_good = true; input = []; decoded = decoded }
read_codes zero (code ∷ input) decoded = record {
  is_good = false;
  input = code ∷ input;
  decoded = decoded;
}
read_codes (suc fuel) (code ∷ input) decoded =
    let next = read_code code input decoded in
    let rest = read_codes fuel next.input next.decoded in if next.is_good then rest else next

-- The decoded payload bytes overwrite the front of the array.
unfoldable pub store : List ℕ → Frame → Frame
store decoded f = record f {
  payload = drop header_size decoded ++ drop (length (drop header_size decoded)) f.payload;
}

-- The fields of a decoded header, and the last two checks. A short header is refused before.
unfoldable pub read_header : List ℕ → Frame → Bool × Frame
read_header (m0 ∷ m1 ∷ m2 ∷ m3 ∷ op ∷ st ∷ s0 ∷ s1 ∷ i0 ∷ i1 ∷ i2 ∷ i3 ∷ n0 ∷ n1 ∷ n2 ∷ n3 ∷ body)
      f =
    if m0 == b'N' && m1 == b'4' && m2 == b'U' && m3 == b'1'
    then (
      leb (of_le16 s0 s1) payload_size && length body == of_le16 s0 s1,
      record f {
        operation = op;
        status = st;
        size = of_le16 s0 s1;
        id = of_le32 i0 i1 i2 i3;
        session = of_le32 n0 n1 n2 n3;
      },
    )
    else (false, f)
read_header _ f = (false, f)

unfoldable pub decode_frame : List ℕ → Frame → Bool × Frame
decode_frame input f =
    let d = read_codes (length input) input [] in
    if length input == 0 || leb wire_size (length input)
    then (false, f)
    else if d.is_good
    then read_header d.decoded (store d.decoded f)
    else (false, store d.decoded f)
