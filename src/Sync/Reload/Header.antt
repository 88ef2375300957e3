-- ===== src/Sync/Reload/Header.antt =====
-- The header and the CRC of a record:
-- components/note4_companion/note4_sync_engine.cc.

use zectrix_note4_platform.Base.{
  All-append, List, ap, arith, drop, drop-length_append, le32, length, length-append, refl,
  replicate, some, take, take-length_append, true, u32_mod, ℕ, ◌++◌, ◌+◌, ◌-◌, ◌<◌, ◌≡◌, ◌≤◌,
}
use zectrix_note4_platform.Crc.{crc32}
use zectrix_note4_platform.Crc.Bounds.{crc32-small}
use zectrix_note4_platform.Protocol.{u16_at, u32_at}
use zectrix_note4_platform.Sync.State.{maximum_record_size}
use zectrix_note4_platform.Sync.Persist.{
  store_magic, store_header_size, store_crc_size, store_header, with_crc, finish_record,
}
use zectrix_note4_platform.Sync.Load.{is_record}
use zectrix_note4_platform.Sync.Reload.Bytes.{AllBytes}

abbrev pub record_bytes : ℕ → List ℕ → List ℕ
record_bytes generation body = with_crc (store_header generation (length body) ++ body)

pub finish_record-bytes :
    (generation : ℕ) (body r : List ℕ)
    → finish_record generation (replicate store_header_size 0 ++ body) ≡ some r
    → (r ≡ record_bytes generation body)
      × (length body ≤ 65535)
      × (length body + 20 ≤ maximum_record_size)
unfolding finish_record
finish_record-bytes generation body r h =
    let out = replicate store_header_size 0 ++ body in
    let size : length out - store_header_size ≡ length body = omega arith in
    let path = ap (λ (k : ℕ). with_crc (store_header generation k ++ body)) size in
    (ground (arith, path), ground (arith, size), ground (arith, size))

module _ (generation : ℕ) (body : List ℕ) (g : generation < u32_mod) (n : length body ≤ 65535)
    (m : length body + 20 ≤ maximum_record_size) (b : AllBytes body) where
  abbrev covered : List ℕ
  covered = store_header generation (length body) ++ body

  abbrev whole : List ℕ
  whole = record_bytes generation body

  crc_small : crc32 covered 0 < u32_mod
  unfolding store_header
  crc_small =
      crc32-small covered 0 (omega arith)
        (All-append (λ c. c < 256) (store_header generation (length body)) body (omega arith) b)

  length-covered : length covered ≡ 16 + length body
  unfolding store_header
  length-covered = omega arith

  length-whole : length whole ≡ 20 + length body
  length-whole = omega (arith, length-append covered (le32 (crc32 covered 0)), length-covered)

  pub fields :
      (u32_at whole 0 ≡ store_magic)
      × (u16_at whole 4 ≡ 2)
      × (u16_at whole 6 ≡ store_header_size)
      × (u32_at whole 8 ≡ generation)
      × (u16_at whole 12 ≡ length body)
      × (u16_at whole 14 ≡ 0)
      × (drop store_header_size whole ≡ body ++ le32 (crc32 covered 0))
  unfolding store_header
  fields = (refl, refl, refl, omega arith, omega arith, refl, refl)

  crc_part :
      (take (length whole - store_crc_size) whole ≡ covered)
      × (drop (length whole - store_crc_size) whole ≡ le32 (crc32 covered 0))
  crc_part =
      let cut : length whole - store_crc_size ≡ length covered =
        omega (arith, length-whole, length-covered) in
      rw cut (
        take-length_append covered (le32 (crc32 covered 0)),
        drop-length_append covered (le32 (crc32 covered 0)),
      )

  pub is_record-whole : is_record whole ≡ true
  unfolding is_record
  is_record-whole =
      let f = fields in
      let c = crc_part in
      let word : u32_at (le32 (crc32 covered 0)) 0 ≡ crc32 covered 0 = omega (arith, crc_small) in
      rw (f.0, f.1, f.2, f.4, f.5, c.0, c.1, word) (ground (arith, length-whole))
