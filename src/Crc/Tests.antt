-- ===== src/Crc/Tests.antt =====
-- A CRC in two chunks, and the check value of CRC-32.
use zectrix_note4_platform.Base.{List, [], refl, ℕ, ◌++◌, ◌∷◌, ◌≡◌}
use zectrix_note4_platform.Crc.{
  firmware_crc32, crc_bit, crc_bits, update_crc32, crc32, firmware_bit, firmware_bits,
  firmware_update, complement,
}
use zectrix_note4_platform.Crc.Stream.{firmware_crc32-append}

abbrev first_chunk : List ℕ
first_chunk = 49 ∷ 50 ∷ 51 ∷ 52 ∷ 53 ∷ []

abbrev second_chunk : List ℕ
second_chunk = 54 ∷ 55 ∷ 56 ∷ 57 ∷ []

check_value : firmware_crc32 (first_chunk ++ second_chunk) 0 ≡ 0xcbf4_3926
unfolding firmware_crc32 firmware_update firmware_bits firmware_bit complement
check_value = refl

protocol_check_value : crc32 (first_chunk ++ second_chunk) 0 ≡ 0xcbf4_3926
unfolding crc32 update_crc32 crc_bits crc_bit
protocol_check_value = refl

firmware_crc32-append_example :
    firmware_crc32 (first_chunk ++ second_chunk) 0
    ≡ firmware_crc32 second_chunk (firmware_crc32 first_chunk 0)
firmware_crc32-append_example = firmware_crc32-append first_chunk second_chunk 0
