-- ===== src/Protocol/Delivery.antt =====
-- All fragments of a frame, sent in order, are put together again: `EncodeFragment` and
-- `FragmentReassembler::Accept` of components/note4_companion/note4_companion_protocol.cc.

use zectrix_note4_platform.Protocol.Reassembly.{
  length-chunk, append_data-middle, append_data-last, take_whole, IsWhole, holding,
}
use zectrix_note4_platform.Protocol.{
  ok, ProtocolStatus, fragment_accepted, frame_complete, maximum_frame_size,
}
use native.Mathlib.Nat.{div-add-mod, mod-lt, mul_comm, add-mul, mul-le-mul_right}
use Prim.Native.Nat.{bit_and}
use zectrix_note4_platform.Base.{
  Bool, List, [], ap, arith, drop, false, le16, length, min, not, of_le16, refl, replicate, suc,
  sym, take, true, u32_mod, zero, ℕ, ◌%◌, ◌*◌, ◌++◌, ◌+◌, ◌-◌, ◌/◌, ◌<◌, ◌==◌, ◌∙◌, ◌∷◌, ◌≡◌, ◌≤◌,
}
use zectrix_note4_platform.Protocol.Fragments.{
  accept, fragment_magic, fragment_version, fragment_start, fragment_end, refused_fragment_flags,
  fragment_flags, FragmentReassembler, reset, append_data, fragment_header_size, fragment_count,
  encode_fragment,
}

abbrev packet_of : ℕ → ℕ → Bool → Bool → List ℕ → List ℕ
packet_of id m first last chunk =
    fragment_magic ∷ fragment_version ∷ fragment_flags first last ∷ 0 ∷ (le16 id ++ le16 m ++ chunk)

flags_bits :
    (first last : Bool)
    → (not (bit_and (fragment_flags first last) fragment_start == 0) ≡ first)
      × (not (bit_and (fragment_flags first last) fragment_end == 0) ≡ last)
      × (bit_and (fragment_flags first last) refused_fragment_flags ≡ 0)
unfolding fragment_flags
flags_bits true true = (refl, refl, refl)
flags_bits true false = (refl, refl, refl)
flags_bits false true = (refl, refl, refl)
flags_bits false false = (refl, refl, refl)

abbrev starting : ℕ → FragmentReassembler
starting id = record { received = []; expected_size = 0; frame_id = id; is_active = true }

word : (n : ℕ) → n < 65536 → of_le16 (n % 256) (n / 256 % 256) ≡ n
word n h = omega arith

module _ (id m : ℕ) (last : Bool) (chunk : List ℕ) (r : FragmentReassembler) (hid : id < 65536)
    (hm : m < 65536) (some_data : 0 < length chunk) where
  accept-first :
      m ≡ 0 → accept (packet_of id m true last chunk) r ≡ append_data m last chunk (starting id)
  unfolding accept reset
  accept-first z =
      let flags = flags_bits true last in
      rw (flags.0, flags.1, flags.2, word id hid, word m hm) (ground (arith))

  accept-later :
      r.is_active ≡ true
      → r.frame_id ≡ id
      → accept (packet_of id m false last chunk) r ≡ append_data m last chunk r
  unfolding accept
  accept-later a b =
      let flags = flags_bits false last in
      rw (flags.0, flags.1, flags.2, word id hid, word m hm) (ground (arith))

-- The packets that a sender makes of a frame, `rounds` of them from the index `i` on.
unfoldable pub packets : List ℕ → ℕ → ℕ → ℕ → ℕ → List (List ℕ)
packets frame id packet_capacity zero i = []
packets frame id packet_capacity (suc rounds) i =
    (encode_fragment frame id i packet_capacity packet_capacity).1
    ∷ packets frame id packet_capacity rounds (suc i)

-- The statuses of a receiver, packet by packet, and what it is left with.
unfoldable pub accept_all :
    List (List ℕ) → FragmentReassembler → List ProtocolStatus × FragmentReassembler
accept_all [] r = ([], r)
accept_all (p ∷ ps) r = let rest = accept_all ps (accept p r).1 in ((accept p r).0 ∷ rest.0, rest.1)

min_left : (a b : ℕ) → a ≤ b → min a b ≡ a
min_left a b h = omega arith

min_right : (a b : ℕ) → b ≤ a → min a b ≡ b
min_right a b h = omega arith

factor_positive : (q d : ℕ) → 0 < q * d → 0 < q
factor_positive zero d h = absurd (omega arith)
factor_positive (suc q) d h = omega arith

module _ (n d : ℕ) (positive : 0 < d) where
  rounds_bound : let q = (n + d - 1) / d in (n ≤ q * d) × (q * d ≤ n + d - 1)
  rounds_bound =
      let q = (n + d - 1) / d in
      omega (arith, div-add-mod (n + d - 1) d, mod-lt (n + d - 1) positive, mul_comm q d)

  before-last : (i : ℕ) → suc i < (n + d - 1) / d → i * d + d < n
  before-last i h =
      let q = (n + d - 1) / d in
      let below : (i + 2) * d ≤ q * d = mul-le-mul_right d (omega arith) in
      omega (arith, rounds_bound, below, add-mul i 2 d)

  at-last : (i : ℕ) → suc i ≡ (n + d - 1) / d → 0 < n → (i * d < n) × (n ≤ i * d + d)
  at-last i h k =
      let q = (n + d - 1) / d in
      let same : (i + 1) * d ≡ q * d =
        ap (λ (t : ℕ). t * d) (let e : i + 1 ≡ q = omega (arith, h) in e) in
      omega (arith, rounds_bound, same, add-mul i 1 d)

-- A packet has room for a byte behind the header, and is so small that the sum in `FragmentCount`
-- does not wrap for the longest frame.
abbrev pub IsCapacity : ℕ → Type 0
IsCapacity packet_capacity =
    (fragment_header_size < packet_capacity)
    × (packet_capacity - fragment_header_size + maximum_frame_size ≤ u32_mod)

module _ (frame : List ℕ) (id packet_capacity : ℕ) (w : IsWhole frame) (hid : id < 65536)
    (room : IsCapacity packet_capacity) where
  abbrev count : ℕ
  count = fragment_count (length frame) packet_capacity

  count_lem : count ≡ (length frame + (packet_capacity - 8) - 1) / (packet_capacity - 8)
  unfolding fragment_count
  count_lem = ground (arith, w.fits, w.has_header)

  encode_fragment-middle :
      (i : ℕ)
      → suc i < count
      → encode_fragment frame id i packet_capacity packet_capacity ≡ (
        ok,
        packet_of id
            (i * (packet_capacity - 8))
            (i == 0)
            false
            (take (packet_capacity - 8) (drop (i * (packet_capacity - 8)) frame)),
      )
  unfolding encode_fragment
  encode_fragment-middle i h =
      let size : i * (packet_capacity - 8) + (packet_capacity - 8) < length frame =
        before-last (length frame) (packet_capacity - 8) (omega arith) i
          (omega (arith, count_lem)) in
      ground (
        arith,
        w.fits,
        ap (λ (k : ℕ). take k (drop (i * (packet_capacity - 8)) frame))
            (min_left (packet_capacity - 8) (length frame - i * (packet_capacity - 8))
              (omega arith)),
      )

  encode_fragment-last :
      (i : ℕ)
      → suc i ≡ count
      → encode_fragment frame id i packet_capacity packet_capacity ≡ (
        ok,
        packet_of id (i * (packet_capacity - 8)) (i == 0) true (
            take
              (length frame - i * (packet_capacity - 8))
              (drop (i * (packet_capacity - 8)) frame)),
      )
  unfolding encode_fragment
  encode_fragment-last i h =
      let size =
        at-last (length frame) (packet_capacity - 8) (omega arith) i (omega (arith, count_lem))
          (omega (arith, w.has_header)) in
      ground (
        arith,
        w.fits,
        ap (λ (k : ℕ). take k (drop (i * (packet_capacity - 8)) frame))
            (min_right (packet_capacity - 8) (length frame - i * (packet_capacity - 8))
              (omega arith)),
      )

-- The receiver before the packet `i`, and at the end.
abbrev before : List ℕ → ℕ → ℕ → FragmentReassembler → ℕ → FragmentReassembler
before frame id d r zero = r
before frame id d r (suc i) = holding frame id (suc i * d)

abbrev pub complete : List ℕ → ℕ → FragmentReassembler
complete frame id = record {
  received = frame;
  expected_size = length frame;
  frame_id = id;
  is_active = false;
}

accept-packet :
    (frame : List ℕ) (id d : ℕ) (r : FragmentReassembler) (i : ℕ) (last : Bool) (chunk : List ℕ)
    → id < 65536
    → i * d < 65536
    → 0 < length chunk
    → accept (packet_of id (i * d) (i == 0) last chunk) (before frame id d r i)
      ≡ append_data (i * d) last chunk (holding frame id (i * d))
accept-packet frame id d r zero last chunk hid hm hc =
    let none_yet : 0 * d ≡ 0 = omega arith in
    accept-first id (0 * d) last chunk r hid hm hc none_yet
    ∙ ap (λ (m : ℕ). append_data (0 * d) last chunk (holding frame id m)) (sym none_yet)
accept-packet frame id d r (suc i) last chunk hid hm hc =
    let later : (suc i == 0) ≡ false = ground arith in
    ap (λ (b : Bool). accept (packet_of id (suc i * d) b last chunk) (holding frame id (suc i * d)))
      later
    ∙ accept-later id (suc i * d) last chunk (holding frame id (suc i * d)) hid hm hc refl refl

module _ (frame : List ℕ) (id packet_capacity : ℕ) (w : IsWhole frame) (hid : id < 65536)
    (room : IsCapacity packet_capacity) (r : FragmentReassembler) where
  abbrev d : ℕ
  d = packet_capacity - fragment_header_size

  accept-middle :
      (i : ℕ)
      → suc i < count frame id packet_capacity w hid room
      → accept
          (encode_fragment frame id i packet_capacity packet_capacity).1
          (before frame id d r i)
        ≡ (fragment_accepted, before frame id d r (suc i))
  accept-middle i h =
      let size : i * d + d < length frame =
        before-last (length frame) d (omega arith) i
          (omega (arith, count_lem frame id packet_capacity w hid room)) in
      ap (λ (p : ProtocolStatus × List ℕ). accept p.1 (before frame id d r i))
        (encode_fragment-middle frame id packet_capacity w hid room i h)
      ∙ accept-packet frame id d r i false (take d (drop (i * d) frame)) hid (omega (arith, w.fits))
          (omega (arith, length-chunk frame id w (i * d) d (omega arith)))
      ∙ append_data-middle frame id w (i * d) d (omega arith) (λ e. omega (arith, e, size))
      ∙ ap (λ (m : ℕ). (fragment_accepted, holding frame id m)) (omega (arith, add-mul i 1 d))

  whole : record (holding frame id (length frame)) { is_active = false } ≡ complete frame id
  whole = ground (arith, take_whole (length frame) frame, w.has_header)

  accept-last :
      (i : ℕ)
      → suc i ≡ count frame id packet_capacity w hid room
      → accept
          (encode_fragment frame id i packet_capacity packet_capacity).1
          (before frame id d r i)
        ≡ (frame_complete, complete frame id)
  accept-last i h =
      let size =
        at-last (length frame) d (omega arith) i
          (omega (arith, count_lem frame id packet_capacity w hid room))
          (omega (arith, w.has_header)) in
      let k : ℕ = length frame - i * d in
      ap (λ (p : ProtocolStatus × List ℕ). accept p.1 (before frame id d r i))
        (encode_fragment-last frame id packet_capacity w hid room i h)
      ∙ accept-packet frame id d r i true (take k (drop (i * d) frame)) hid (omega (arith, w.fits))
          (omega (arith, length-chunk frame id w (i * d) k (omega arith)))
      ∙ append_data-last frame id w (i * d) k (omega arith) (omega arith)
      ∙ ap (λ (m : ℕ). (frame_complete, record (holding frame id m) { is_active = false }))
          (let e : i * d + k ≡ length frame = omega arith in e)
      ∙ ap (λ (s : FragmentReassembler). (frame_complete, s)) whole

  deliver :
      (rounds i : ℕ)
      → suc rounds + i ≡ count frame id packet_capacity w hid room
      → accept_all (packets frame id packet_capacity (suc rounds) i) (before frame id d r i)
        ≡ (replicate rounds fragment_accepted ++ frame_complete ∷ [], complete frame id)
  unfolding accept_all packets
  deliver zero i h = rw (accept-last i (omega arith)) refl
  deliver (suc rounds) i h =
      let go : ProtocolStatus × FragmentReassembler → List ProtocolStatus × FragmentReassembler =
        λ a.
          let rest = accept_all (packets frame id packet_capacity (suc rounds) (suc i)) a.1 in
          (a.0 ∷ rest.0, rest.1) in
      let note : List ProtocolStatus × FragmentReassembler
          → List ProtocolStatus × FragmentReassembler =
        λ x. (fragment_accepted ∷ x.0, x.1) in
      ap go (accept-middle i (omega arith)) ∙ ap note (deliver rounds (suc i) (omega arith))

  count_positive : 0 < count frame id packet_capacity w hid room
  count_positive =
      let q : ℕ = (length frame + d - 1) / d in
      let bound = rounds_bound (length frame) d (omega arith) in
      let some_rounds : 0 < q = factor_positive q d (omega (arith, bound, w.has_header)) in
      omega (arith, some_rounds, count_lem frame id packet_capacity w hid room)

  pub accept_all-packets :
      let n = fragment_count (length frame) packet_capacity in
      accept_all (packets frame id packet_capacity n 0) r
      ≡ (replicate (n - 1) fragment_accepted ++ frame_complete ∷ [], complete frame id)
  accept_all-packets =
      let n = fragment_count (length frame) packet_capacity in
      let e : suc (n - 1) ≡ n = omega (arith, count_positive) in
      ap (λ (k : ℕ). accept_all (packets frame id packet_capacity k 0) r) (sym e)
      ∙ deliver (n - 1) 0 (omega (arith, e))
