-- ===== src/Crc/Bounds.antt =====
-- A CRC is a 32-bit word: `Crc32` of components/note4_companion/note4_companion_protocol.cc.
use Prim.Native.Nat.{bit_and, bit_xor}
use zectrix_note4_platform.Base.{
  All, List, [], arith, sub32, suc, u32_max, u32_mod, zero, ℕ, ◌/◌, ◌<◌, ◌∷◌,
}
use zectrix_note4_platform.Base.Bits.{bit_xor-lt, bit_and-le}
use zectrix_note4_platform.Crc.{crc32, polynomial, crc_bit, crc_bits, update_crc32}

crc_bit-small : (crc : ℕ) → crc < u32_mod → crc_bit crc < u32_mod
unfolding crc_bit
crc_bit-small crc h =
    bit_xor-lt 32 (crc / 2) (bit_and polynomial (sub32 0 (bit_and crc 1))) (omega arith)
      (omega (arith, bit_and-le polynomial (sub32 0 (bit_and crc 1))))

crc_bits-small : (n crc : ℕ) → crc < u32_mod → crc_bits n crc < u32_mod
unfolding crc_bits
crc_bits-small zero crc h = h
crc_bits-small (suc n) crc h = crc_bits-small n (crc_bit crc) (crc_bit-small crc h)

update_crc32-small :
    (crc : ℕ) (bs : List ℕ) → crc < u32_mod → All (λ b. b < 256) bs → update_crc32 crc bs < u32_mod
unfolding update_crc32
update_crc32-small crc [] h all_bytes = h
update_crc32-small crc (b ∷ bs) h all_bytes =
    update_crc32-small (crc_bits 8 (bit_xor crc b)) bs
      (crc_bits-small 8 (bit_xor crc b) (bit_xor-lt 32 crc b h (omega (arith, all_bytes.0))))
      all_bytes.1

pub crc32-small :
    (bs : List ℕ) (previous : ℕ)
    → previous < u32_mod
    → All (λ b. b < 256) bs
    → crc32 bs previous < u32_mod
unfolding crc32
crc32-small bs previous h all_bytes =
    bit_xor-lt 32 (update_crc32 (bit_xor previous u32_max) bs) u32_max
      (update_crc32-small (bit_xor previous u32_max) bs
        (bit_xor-lt 32 previous u32_max h (omega arith)) all_bytes)
      (omega arith)
