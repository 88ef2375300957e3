-- ===== src/Crc/Stream.antt =====
-- The CRC of a stream in chunks: `FirmwareCrc32` of components/note4_update/note4_update_stream.cc.
use Prim.Native.Nat.{bit_xor}
use zectrix_note4_platform.Base.{List, [], arith, refl, suc, u32_mod, zero, ℕ, ◌++◌, ◌<◌, ◌∷◌, ◌≡◌}
use zectrix_note4_platform.Crc.{
  firmware_crc32, firmware_bit, firmware_bits, firmware_update, complement,
}

firmware_update-append :
    (crc : ℕ) (xs ys : List ℕ)
    → firmware_update crc (xs ++ ys) ≡ firmware_update (firmware_update crc xs) ys
unfolding firmware_update
firmware_update-append crc [] ys = refl
firmware_update-append crc (x ∷ xs) ys =
    firmware_update-append (firmware_bits 8 (bit_xor crc x)) xs ys

firmware_bits-small : (n crc : ℕ) → crc < u32_mod → firmware_bits n crc < u32_mod
unfolding firmware_bits firmware_bit
firmware_bits-small zero crc h = h
firmware_bits-small (suc n) crc h = firmware_bits-small n (firmware_bit crc) (omega arith)

byte-small : (crc : ℕ) → firmware_bits 8 crc < u32_mod
unfolding firmware_bits firmware_bit
byte-small crc = firmware_bits-small 7 (firmware_bit crc) (omega arith)

firmware_update-small : (crc : ℕ) (xs : List ℕ) → crc < u32_mod → firmware_update crc xs < u32_mod
unfolding firmware_update
firmware_update-small crc [] h = h
firmware_update-small crc (x ∷ xs) h =
    firmware_update-small (firmware_bits 8 (bit_xor crc x)) xs (byte-small (bit_xor crc x))

-- The CRC of two chunks is the CRC of the second one carried on from that of the first.
pub firmware_crc32-append :
    (xs ys : List ℕ) (previous : ℕ)
    → firmware_crc32 (xs ++ ys) previous ≡ firmware_crc32 ys (firmware_crc32 xs previous)
unfolding firmware_crc32 complement
firmware_crc32-append xs ys previous =
    let first = firmware_update-append (complement previous) xs ys in
    let small = firmware_update-small (complement previous) xs (omega arith) in
    let same : complement (complement (firmware_update (complement previous) xs))
        ≡ firmware_update (complement previous) xs =
      omega arith in
    rw (first, same) refl
