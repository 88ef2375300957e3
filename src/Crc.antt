-- ===== src/Crc.antt =====
-- The CRC-32 of the companion protocol and that of the firmware stream: `Crc32` of
-- components/note4_companion/note4_companion_protocol.cc and `FirmwareCrc32` of
-- components/note4_update/note4_update_stream.cc.
pub mod Stream
pub mod Bounds
mod Tests
use Prim.Native.Nat.{bit_and, bit_xor}
use zectrix_note4_platform.Base.{
  List, [], if◌then◌else◌, sub32, suc, u32_max, u32_mod, zero, ℕ, ◌%◌, ◌-◌, ◌/◌, ◌==◌, ◌∷◌,
}

abbrev pub polynomial : ℕ
polynomial = 0xedb8_8320

-- One bit of `UpdateCrc32`: the mask is all ones for an odd `crc`, or 0.
unfoldable pub crc_bit : ℕ → ℕ
crc_bit crc = bit_xor (crc / 2) (bit_and polynomial (sub32 0 (bit_and crc 1)))

unfoldable pub crc_bits : ℕ → ℕ → ℕ
crc_bits zero crc = crc
crc_bits (suc n) crc = crc_bits n (crc_bit crc)

unfoldable pub update_crc32 : ℕ → List ℕ → ℕ
update_crc32 crc [] = crc
update_crc32 crc (b ∷ bs) = update_crc32 (crc_bits 8 (bit_xor crc b)) bs

-- `previous` is the finished value of the bytes before, 0 at the start.
unfoldable pub crc32 : List ℕ → ℕ → ℕ
crc32 bs previous = bit_xor (update_crc32 (bit_xor previous u32_max) bs) u32_max

-- One bit of `FirmwareCrc32`, which tests the low bit, kept to 32 bits.
unfoldable pub firmware_bit : ℕ → ℕ
firmware_bit crc = bit_xor (crc / 2) (if bit_and crc 1 == 0 then 0 else polynomial) % u32_mod

unfoldable pub firmware_bits : ℕ → ℕ → ℕ
firmware_bits zero crc = crc
firmware_bits (suc n) crc = firmware_bits n (firmware_bit crc)

unfoldable pub firmware_update : ℕ → List ℕ → ℕ
firmware_update crc [] = crc
firmware_update crc (b ∷ bs) = firmware_update (firmware_bits 8 (bit_xor crc b)) bs

-- `~x` on 32 bits.
unfoldable pub complement : ℕ → ℕ
complement x = u32_max - x % u32_mod

unfoldable pub firmware_crc32 : List ℕ → ℕ → ℕ
firmware_crc32 bs previous = complement (firmware_update (complement previous) bs)
