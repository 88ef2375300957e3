-- ===== src/Host/Wire/Frames.antt =====
-- Decoding what was encoded gives the frame back.
use native.Mathlib.Nat.{le_refl}
use zectrix_note4_platform.Base.{
  All, All-append, All-take, List, [], ap, arith, drop, length, length-take, refl, take, true,
  u32_mod, ℕ, ◌++◌, ◌+◌, ◌<◌, ◌∷◌, ◌≡◌, ◌≤◌,
}
use zectrix_note4_platform.Host.{Frame, payload_size, header_size, wire_size}
use zectrix_note4_platform.Host.Wire.{
  encoder_start, header, encode_frame, store, read_header, decode_frame,
}
use zectrix_note4_platform.Host.Wire.Blocks.{stuff, put_bytes-stuff, stuff-nonzero, length-stuff-le}
use zectrix_note4_platform.Host.Wire.RoundTrip.{IsNonzero, read_codes-stuff, stuff-cons_of}

-- A frame whose fields fit their widths, with a whole payload array.
pub record IsFrame (f : Frame) : Type 0 where
  pub operation_byte : f.operation < 256
  pub status_byte : f.status < 256
  pub size_fits : f.size ≤ payload_size
  pub id_word : f.id < u32_mod
  pub session_word : f.session < u32_mod
  pub array : length f.payload ≡ payload_size
  pub payload_bytes : All (λ b. b < 256) f.payload

raw : Frame → List ℕ
raw f = header f ++ take f.size f.payload

length-raw : (f : Frame) → IsFrame f → length (raw f) ≡ header_size + f.size
unfolding raw header
length-raw f h = omega (arith, length-take f.size f.payload, h.size_fits, h.array)

raw-bytes : (f : Frame) → IsFrame f → All (λ b. b < 256) (raw f)
unfolding raw header
raw-bytes f h =
    All-append (λ b. b < 256) (header f) (take f.size f.payload) (omega arith)
      (All-take (λ b. b < 256) f.size f.payload h.payload_bytes)

encode_frame-stuff :
    (f : Frame) (capacity : ℕ)
    → IsFrame f
    → wire_size ≤ capacity
    → encode_frame f capacity ≡ stuff [] (raw f) ++ 0 ∷ []
unfolding encode_frame raw
encode_frame-stuff f capacity h c =
    let start =
      put_bytes-stuff encoder_start [] [] (header f ++ take f.size f.payload)
        (refl, refl, refl, omega arith) in
    ground (arith, start)

read_header-raw :
    (f g : Frame)
    → IsFrame f
    → read_header (raw f) g ≡ (
      true,
      record g {
        operation = f.operation;
        status = f.status;
        size = f.size;
        id = f.id;
        session = f.session;
      },
    )
unfolding read_header raw header
read_header-raw f g h = ground (arith, length-take f.size f.payload)

IsNonzero-of : (bs : List ℕ) → All (λ b. (0 < b) × (b < 256)) bs → IsNonzero bs
IsNonzero-of [] h = tt
IsNonzero-of (b ∷ bs) h = (h.0.0, IsNonzero-of bs h.1)

-- What the receiver of `f` has in a frame that was `g`: the bytes of `g`'s array behind the payload
-- stay.
abbrev pub received : Frame → Frame → Frame
received f g = record f { payload = take f.size f.payload ++ drop f.size g.payload }

store-raw :
    (f g : Frame)
    → IsFrame f
    → store (raw f) g ≡ record g { payload = take f.size f.payload ++ drop f.size g.payload }
unfolding store raw header
store-raw f g h = ground (arith, ap (λ (n : ℕ). drop n g.payload) (taken f h))
  where
    taken : (f : Frame) → IsFrame f → length (take f.size f.payload) ≡ f.size
    taken f h = omega (arith, length-take f.size f.payload, h.size_fits, h.array)

stuffed_short : (f : Frame) → IsFrame f → length (stuff [] (raw f)) < wire_size
stuffed_short f h = omega (arith, length-stuff-le [] (raw f), length-raw f h, h.size_fits)

decode_frame-stuff :
    (f g : Frame) → IsFrame f → decode_frame (stuff [] (raw f)) g ≡ (true, received f g)
unfolding decode_frame
decode_frame-stuff f g h =
    let codes =
      read_codes-stuff (length (stuff [] (raw f))) [] (raw f) [] (le_refl _) tt (omega arith)
        (omega (arith, length-raw f h, h.size_fits)) in
    let short = stuffed_short f h in
    let (w, rest, e) = stuff-cons_of [] (raw f) in
    ground (arith, codes, store-raw f g h, read_header-raw f (store (raw f) g) h, ap length e)

-- With room for a whole wire frame, a frame whose fields fit is encoded into bytes of which none is
-- zero, closed by one zero, within the wire size; and the bytes before the zero decode to the same
-- frame, in the receiver's array.
pub encode_frame-decode_frame :
    (f g : Frame) (capacity : ℕ)
    → IsFrame f
    → wire_size ≤ capacity
    → (bytes : List ℕ) × (encode_frame f capacity ≡ bytes ++ 0 ∷ [])
      × All (λ b. (0 < b) × (b < 256)) bytes
      × (length bytes < wire_size)
      × (decode_frame bytes g ≡ (true, received f g))
encode_frame-decode_frame f g capacity h c = (
  stuff [] (raw f),
  encode_frame-stuff f capacity h c,
  stuff-nonzero [] (raw f) (omega arith) tt (raw-bytes f h),
  stuffed_short f h,
  decode_frame-stuff f g h,
)
