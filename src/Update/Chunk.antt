-- ===== src/Update/Chunk.antt =====
-- One call of `WriteFirmwareChunk`, components/note4_update/note4_update_stream.cc.
use zectrix_note4_platform.Base.{
  Bool-cases, List, [], ap, append_assoc, arith, drop, false, inl, inr, leb, leb→le, leb→lt, length,
  length-append, length-take, le→leb, ltb, lt→leb, min, not, refl, sub32, sym, take,
  take-append-drop, true, u32_mod, ℕ, ◌&&◌, ◌++◌, ◌+◌, ◌-◌, ◌<◌, ◌∙◌, ◌≡◌, ◌≢◌, ◌≤◌, ◌⊎◌,
}
use zectrix_note4_platform.Boot.{is_ok}
use zectrix_note4_platform.Crc.{firmware_crc32}
use zectrix_note4_platform.Update.{
  Service, firmware_header_bytes, Flash, Outcome, copied_bytes, with_header, is_complete,
  take_chunk, check_chunk, write_firmware_chunk,
}
use zectrix_note4_platform.Update.Bytes.{stored, take-all, header-grows}
use zectrix_note4_platform.Update.Receiving.{
  Between, Receives, Fails, Takes, write_rest-cases, open_image-cases,
}

module _ (s : Service) (stream bytes image : List ℕ) (r : Receives s stream image)
    (fits : length bytes ≤ s.firmware.image_bytes - s.firmware.received_bytes) where
  grown : (with_header s bytes).header ≡ take firmware_header_bytes (stream ++ bytes)
  grown =
      ap (λ h. h ++ take (min (length bytes) (firmware_header_bytes - length h)) bytes) r.head
      ∙ header-grows firmware_header_bytes stream bytes

  length-grown :
      length (with_header s bytes).header ≡ min firmware_header_bytes (length stream + length bytes)
  length-grown =
      ap length grown
      ∙ length-take firmware_header_bytes (stream ++ bytes)
      ∙ ap (λ n. min firmware_header_bytes n) (length-append stream bytes)

  length-head : length s.header ≡ min firmware_header_bytes (length stream)
  length-head = ap length r.head ∙ length-take firmware_header_bytes stream

  -- The header was not whole, so that it held all of the stream.
  first_bytes :
      s.image_open ≡ false
      → (with_header s bytes).header ++ drop (copied_bytes s bytes) bytes ≡ stream ++ bytes
  first_bytes closed =
      let less = leb→lt firmware_header_bytes (length stream) (sym r.opened ∙ closed) in
      let short : length stream ≤ firmware_header_bytes = omega arith in
      let whole : s.header ≡ stream = r.head ∙ take-all firmware_header_bytes stream short in
      append_assoc s.header (take (copied_bytes s bytes) bytes) (drop (copied_bytes s bytes) bytes)
      ∙ ap (λ xs. s.header ++ xs) (take-append-drop (copied_bytes s bytes) bytes)
      ∙ ap (λ h. h ++ bytes) whole

  -- The header was whole, so that nothing was copied to it.
  later_bytes : s.image_open ≡ true → image ++ drop (copied_bytes s bytes) bytes ≡ stream ++ bytes
  later_bytes open_now =
      let long : firmware_header_bytes ≤ length stream =
        leb→le firmware_header_bytes (length stream) (sym r.opened ∙ open_now) in
      let none_copied : copied_bytes s bytes ≡ 0 = omega (arith, length-head, long) in
      ap (λ n. image ++ drop n bytes) none_copied ∙ ap (λ i. i ++ bytes) (r.written open_now)

  Between-open :
      s.image_open ≡ false
      → is_complete (with_header s bytes).header ≡ true
      → Between
          (record (with_header s bytes) { image_open = true })
          stream
          bytes
          (with_header s bytes).header
          (copied_bytes s bytes)
  Between-open closed complete = record {
    phase_now = r.phase_now;
    counted = r.counted;
    room = omega (arith, r.room, fits);
    word = r.word;
    larger = r.larger;
    head = grown;
    checked = r.checked;
    opened = sym (long_enough (ground arith));
    written = λ q. first_bytes closed;
  }
    where
      long_enough :
          length (with_header s bytes).header ≡ firmware_header_bytes
          → leb firmware_header_bytes (length (stream ++ bytes)) ≡ true
      long_enough e =
          le→leb firmware_header_bytes (length (stream ++ bytes))
            (omega (arith, length-grown, length-append stream bytes, e))

  Between-more :
      not s.image_open && is_complete (with_header s bytes).header ≡ false
      → Between (with_header s bytes) stream bytes image (copied_bytes s bytes)
  Between-more partial = record {
    phase_now = r.phase_now;
    counted = r.counted;
    room = omega (arith, r.room, fits);
    word = r.word;
    larger = r.larger;
    head = grown;
    checked = r.checked;
    opened = still_open (Bool-cases s.image_open);
    written = later_bytes;
  }
    where
      below :
          (h n : ℕ)
          → h ≢ firmware_header_bytes
          → h ≡ min firmware_header_bytes n
          → n < firmware_header_bytes
      below h n less e = ground arith

      still_open :
          (s.image_open ≡ true) ⊎ (s.image_open ≡ false)
          → s.image_open ≡ leb firmware_header_bytes (length (stream ++ bytes))
      still_open (inl open_now) =
          let long : firmware_header_bytes ≤ length stream =
            leb→le firmware_header_bytes (length stream) (sym r.opened ∙ open_now) in
          open_now
          ∙ sym (
              le→leb firmware_header_bytes (length (stream ++ bytes))
                (omega (arith, long, length-append stream bytes)))
      still_open (inr closed) =
          let not_whole : is_complete (with_header s bytes).header ≡ false = ground arith in
          let less : length (with_header s bytes).header ≢ firmware_header_bytes =
            λ e. ground arith in
          closed
          ∙ sym (
              lt→leb firmware_header_bytes (length (stream ++ bytes)) (
                below (length (with_header s bytes).header) (length (stream ++ bytes)) less (
                  length-grown
                  ∙ ap (λ n. min firmware_header_bytes n) (sym (length-append stream bytes)))))

take_chunk-cases :
    (s : Service) (w : Flash) (stream bytes image : List ℕ)
    → Receives s stream image
    → length bytes ≤ s.firmware.image_bytes - s.firmware.received_bytes
    → Takes (stream ++ bytes) image (take_chunk s w bytes) ⊎ Fails (take_chunk s w bytes)
unfolding stored
take_chunk-cases s w stream bytes image r fits =
    elim (Bool-cases (not s.image_open && is_complete (with_header s bytes).header)) [
      | inl now_whole ↦ rw now_whole (
          open_image-cases (with_header s bytes) w stream bytes image (copied_bytes s bytes)
            (Between-open s stream bytes image r fits (ground arith) (ground arith)))
      | inr ongoing ↦ rw ongoing (
          write_rest-cases (with_header s bytes) w stream bytes image (copied_bytes s bytes) []
            (Between-more s stream bytes image r fits ongoing))
    ]

room_for :
    (image received n : ℕ)
    → ltb (sub32 image received) n ≡ false
    → received ≤ image
    → image < u32_mod
    → n ≤ image - received
room_for image received n h room word = ground arith

-- A chunk that is refused changes nothing and asks nothing of the flash.
pub record Refuses (s : Service) (o : Outcome) : Type 0 where
  pub not_ok : is_ok o.0 ≡ false
  pub same : o.1 ≡ s
  pub no_effects : o.2 ≡ []

-- While receiving, a chunk is either taken: it starts where the stream ends and its CRC is right, and
-- after it the stream is longer by its bytes, with progress, header, CRC and flash to match; or the
-- stream is given up with no image open; or the chunk is refused and nothing changes.
pub write_firmware_chunk-cases :
    (s : Service) (w : Flash) (offset : ℕ) (bytes : List ℕ) (chunk_crc32 : ℕ)
    (stream image : List ℕ)
    → Receives s stream image
    → ((offset ≡ length stream)
        × (firmware_crc32 bytes 0 ≡ chunk_crc32)
        × Takes (stream ++ bytes) image (write_firmware_chunk s w offset bytes chunk_crc32))
      ⊎ (Fails (write_firmware_chunk s w offset bytes chunk_crc32)
          ⊎ Refuses s (write_firmware_chunk s w offset bytes chunk_crc32))
unfolding write_firmware_chunk
write_firmware_chunk-cases s w offset bytes chunk_crc32 stream image r =
    elim (Bool-cases (is_ok (check_chunk s offset bytes chunk_crc32))) [
      | inr refused ↦
          rw refused (inr (inr (record { not_ok = refused; same = refl; no_effects = refl })))
      | inl fine ↦
          let at : offset ≡ length stream = ground (arith, r.counted) in
          let right : firmware_crc32 bytes 0 ≡ chunk_crc32 = ground arith in
          let enough : ltb (sub32 s.firmware.image_bytes s.firmware.received_bytes) (length bytes)
              ≡ false =
            ground arith in
          let fits =
            room_for s.firmware.image_bytes s.firmware.received_bytes (length bytes) enough r.room
              r.word in
          rw fine (elim (take_chunk-cases s w stream bytes image r fits) [
            | inl taken ↦ inl (at, right, taken)
            | inr given_up ↦ inr (inl given_up)
          ])
    ]
