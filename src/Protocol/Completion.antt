-- ===== src/Protocol/Completion.antt =====
-- What the reassembler holds whatever packets come: `FragmentReassembler::Accept` of
-- components/note4_companion/note4_companion_protocol.cc.
use Prim.Native.Nat.{bit_and}
use zectrix_note4_platform.Base.{
  Bool, List, [], arith, drop, false, get_or, if◌then◌else◌, inl, inr, leb, length, length-append,
  ltb, not, refl, suc, true, zero, ℕ, ◌++◌, ◌+◌, ◌-◌, ◌<◌, ◌==◌, ◌||◌, ◌∷◌, ◌≡◌, ◌≢◌, ◌≤◌, ◌⊎◌,
}
use zectrix_note4_platform.Protocol.{
  frame_magic, frame_header_size, maximum_payload_size, maximum_frame_size, ProtocolStatus, u16_at,
  frame_complete, oversized, unexpected_fragment, out_of_order_fragment,
}
use zectrix_note4_platform.Protocol.Fragments.{
  accept, FragmentReassembler, reset, conclude, expect, append_data, fragment_header_size,
  fragment_start, fragment_end,
}
use zectrix_note4_platform.Protocol.Reassembly.{IsWhole}
use zectrix_note4_platform.Protocol.Delivery.{accept_all, packets}

get_or-append {ℓ} :
    {A : Type ℓ} (xs ys : List A) (i : ℕ) (a : A)
    → i < length xs
    → get_or (xs ++ ys) i a ≡ get_or xs i a
get_or-append [] ys i a h = absurd (omega arith)
get_or-append (x ∷ xs) ys zero a h = refl
get_or-append (x ∷ xs) ys (suc i) a h = get_or-append xs ys i a (omega arith)

-- The header of the frame has come, and the expected size is what it says.
abbrev IsKnown : List ℕ → ℕ → Type 0
IsKnown received expected_size =
    (frame_header_size ≤ length received)
    × (u16_at received 0 ≡ frame_magic)
    × (u16_at received 16 ≤ maximum_payload_size)
    × (expected_size ≡ frame_header_size + u16_at received 16)

-- The bytes fit the buffer; the size is expected exactly when the header has come.
pub record IsConsistent (r : FragmentReassembler) : Type 0 where
  pub bounded : length r.received ≤ maximum_frame_size
  pub known :
      ((r.expected_size ≡ 0) × (length r.received < frame_header_size))
      ⊎ IsKnown r.received r.expected_size

reset-IsConsistent : (r : FragmentReassembler) → IsConsistent (reset r)
unfolding reset
reset-IsConsistent r = record { bounded = omega arith; known = inl (omega arith) }

IsKnown-append :
    (received bytes : List ℕ) (n : ℕ) → IsKnown received n → IsKnown (received ++ bytes) n
IsKnown-append received bytes n k =
    let same = λ (i : ℕ) (h : i < length received). get_or-append received bytes i 0 h in
    omega (
      arith,
      length-append received bytes,
      k,
      same 0 (omega (arith, k.0)),
      same 1 (omega (arith, k.0)),
      same 16 (omega (arith, k.0)),
      same 17 (omega (arith, k.0)),
    )

-- What an operation leaves: a consistent reassembler, and a whole frame if it is complete.
record Sound (x : ProtocolStatus × FragmentReassembler) : Type 0 where
  consistent : IsConsistent x.1
  completed : x.0 ≡ frame_complete → IsWhole x.1.received × (x.1.is_active ≡ false)

conclude-Sound : (end : Bool) (r : FragmentReassembler) → IsConsistent r → Sound (conclude end r)
unfolding conclude reset
conclude-Sound end r c = record { consistent = ground arith; completed = λ e. ground arith }

expect_cases :
    (r : FragmentReassembler)
    → length r.received ≤ maximum_frame_size
    → (r.expected_size ≡ 0) ⊎ IsKnown r.received r.expected_size
    → IsConsistent (expect r).1 × ((expect r).0 ≢ frame_complete)
unfolding expect reset
expect_cases r n k = (record { bounded = ground arith; known = ground arith }, λ e. ground arith)

Sound-if :
    (b : Bool) (x y : ProtocolStatus × FragmentReassembler)
    → (b ≡ true → Sound x)
    → (b ≡ false → Sound y)
    → Sound (if b then x else y)
Sound-if true x y hx hy = hx refl
Sound-if false x y hx hy = hy refl

kept :
    (s : ProtocolStatus) (r : FragmentReassembler)
    → s ≢ frame_complete
    → IsConsistent r
    → Sound (s, r)
kept s r h c = record { consistent = c; completed = λ e. absurd (h e) }

reset-Sound :
    (s : ProtocolStatus) (r : FragmentReassembler) → s ≢ frame_complete → Sound (s, reset r)
reset-Sound s r h = record { consistent = reset-IsConsistent r; completed = λ e. absurd (h e) }

append_data-Sound :
    (offset : ℕ) (end : Bool) (bytes : List ℕ) (r : FragmentReassembler)
    → IsConsistent r
    → Sound (append_data offset end bytes r)
unfolding append_data
append_data-Sound offset end bytes r c =
    Sound-if (not (offset == length r.received)) _ _ (λ _. kept out_of_order_fragment r (λ e. cc) c)
      (λ _.
        Sound-if (ltb (maximum_frame_size - length r.received) (length bytes)) _ _
          (λ _. reset-Sound oversized r (λ e. cc))
          (λ fits.
            let longer = length-append r.received bytes in
            let grown : (r.expected_size ≡ 0) ⊎ IsKnown (r.received ++ bytes) r.expected_size =
              elim c.known [
                | inl early ↦ inl early.0
                | inr k ↦ inr (IsKnown-append r.received bytes r.expected_size k)
              ] in
            let e =
              expect_cases (record r { received = r.received ++ bytes })
                (ground (arith, longer, c.bounded)) grown in
            Sound-if _ _ _ (λ _. conclude-Sound end _ e.0)
              (λ _. record { consistent = e.0; completed = λ q. absurd (e.1 q) })))

fresh :
    (id : ℕ)
    → IsConsistent (record { received = []; expected_size = 0; frame_id = id; is_active = true })
fresh id = record { bounded = omega arith; known = inl (omega arith) }

accept-Sound :
    (packet : List ℕ) (r : FragmentReassembler) → IsConsistent r → Sound (accept packet r)
unfolding accept reset
accept-Sound packet r c =
    let flags = get_or packet 2 0 in
    let end = not (bit_and flags fragment_end == 0) in
    let go = append_data-Sound (u16_at packet 6) end (drop fragment_header_size packet) in
    let refused = kept unexpected_fragment r (λ e. cc) c in
    Sound-if (leb (length packet) fragment_header_size) _ _ (λ _. refused)
      (λ _.
        Sound-if _ _ _ (λ _. refused)
          (λ _.
            Sound-if (not (bit_and flags fragment_start == 0)) _ _
              (λ _.
                Sound-if (not (u16_at packet 6 == 0)) _ _
                  (λ _. kept out_of_order_fragment r (λ e. cc) c)
                  (λ _. go _ (fresh (u16_at packet 4))))
              (λ _.
                Sound-if (not r.is_active || not (u16_at packet 4 == r.frame_id)) _ _ (λ _. refused)
                  (λ _. go r c))))

accept_all-IsConsistent :
    (packets : List (List ℕ)) (r : FragmentReassembler)
    → IsConsistent r
    → IsConsistent (accept_all packets r).1
unfolding accept_all
accept_all-IsConsistent [] r c = c
accept_all-IsConsistent (p ∷ ps) r c =
    accept_all-IsConsistent ps (accept p r).1 (accept-Sound p r c).consistent

abbrev pub initial : FragmentReassembler
initial = record { received = []; expected_size = 0; frame_id = 0; is_active = false }

-- Between frames a packet without the start flag is refused.
refuses-continuation :
    (next : List ℕ) (r : FragmentReassembler)
    → r.is_active ≡ false
    → bit_and (get_or next 2 0) fragment_start ≡ 0
    → accept next r ≡ (unexpected_fragment, r)
unfolding accept
refuses-continuation next r idle rest = ground arith

-- After any packets the reassembler holds at most the buffer's 4120 bytes; and if the next packet
-- completes a frame, then what it holds has a header, the magic number, exactly the size that the
-- header gives, and at most 4120 bytes, the reassembler is not active, and after it every packet
-- without the start flag is refused and changes nothing.
pub accept-IsWhole :
    (packets : List (List ℕ)) (packet : List ℕ)
    → let r = (accept_all packets initial).1 in
      (length r.received ≤ maximum_frame_size)
      × ((accept packet r).0 ≡ frame_complete
          → IsWhole (accept packet r).1.received
            × ((accept packet r).1.is_active ≡ false)
            × ((next : List ℕ)
                → bit_and (get_or next 2 0) fragment_start ≡ 0
                → accept next (accept packet r).1 ≡ (unexpected_fragment, (accept packet r).1)))
accept-IsWhole packets packet =
    let c =
      accept_all-IsConsistent packets initial
        (record { bounded = omega arith; known = inl (omega arith) }) in
    let r = (accept_all packets initial).1 in
    (
      c.bounded,
      λ done.
          let (whole, idle) = (accept-Sound packet r c).completed done in
          (whole, idle, λ next rest. refuses-continuation next (accept packet r).1 idle rest),
    )
