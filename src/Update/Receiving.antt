-- ===== src/Update/Receiving.antt =====
-- One call of the firmware stream: what is received, and what has reached the flash.
-- components/note4_update/note4_update_stream.cc.
use zectrix_note4_platform.Base.{
  Bool-cases, List, [], ap, append-nil, arith, drop, false, inl, inr, leb, length, length-append,
  ltb, refl, sym, take, true, u32_mod, ℕ, ◌&&◌, ◌++◌, ◌+◌, ◌<◌, ◌∙◌, ◌∷◌, ◌≡◌, ◌≤◌, ◌⊎◌,
}
use zectrix_note4_platform.Boot.{Result, is_ok, ok, same_partition, invalid_layout}
use zectrix_note4_platform.Crc.{firmware_crc32}
use zectrix_note4_platform.Crc.Stream.{firmware_crc32-append}
use zectrix_note4_platform.Update.{
  select_update_target, advanced, Service, firmware_header_bytes, Flash, Effect, Outcome,
  is_receiving, fail_firmware, write_rest, transfer_failed, open_image, begins_image, writes_image,
}
use zectrix_note4_platform.Update.Bytes.{stored, stored-write, drop-all}

-- While receiving: `stream` is what the accepted chunks held, and `image` what the flash holds.
pub record Receives (s : Service) (stream image : List ℕ) : Type 0 where
  pub phase_now : is_receiving s.firmware.phase ≡ true
  pub counted : s.firmware.received_bytes ≡ length stream
  pub room : s.firmware.received_bytes ≤ s.firmware.image_bytes
  pub word : s.firmware.image_bytes < u32_mod
  pub larger : firmware_header_bytes < s.firmware.image_bytes
  pub head : s.header ≡ take firmware_header_bytes stream
  pub checked : s.received_crc32 ≡ firmware_crc32 stream 0
  pub opened : s.image_open ≡ leb firmware_header_bytes (length stream)
  pub written : s.image_open ≡ true → image ≡ stream

-- The stream was given up and no image is open.
pub record Fails (o : Outcome) : Type 0 where
  pub not_ok : is_ok o.0 ≡ false
  pub phase_now : o.1.firmware.phase ≡ transfer_failed
  pub closed : o.1.image_open ≡ false

pub fail_firmware-Fails :
    (r : Result) (es : List Effect) (s : Service) → is_ok r ≡ false → Fails (fail_firmware r es s)
fail_firmware-Fails r es s bad = record { not_ok = bad; phase_now = refl; closed = refl }

abbrev pub Takes : List ℕ → List ℕ → Outcome → Type 0
Takes stream image o = (o.0 ≡ ok) × Receives o.1 stream (stored image o.2)

-- The state between the header and the progress: the header is that of the longer stream, the rest
-- is still that of the old one.
pub record Between (s : Service) (stream bytes image : List ℕ) (copied : ℕ) : Type 0 where
  pub phase_now : is_receiving s.firmware.phase ≡ true
  pub counted : s.firmware.received_bytes ≡ length stream
  pub room : s.firmware.received_bytes + length bytes ≤ s.firmware.image_bytes
  pub word : s.firmware.image_bytes < u32_mod
  pub larger : firmware_header_bytes < s.firmware.image_bytes
  pub head : s.header ≡ take firmware_header_bytes (stream ++ bytes)
  pub checked : s.received_crc32 ≡ firmware_crc32 stream 0
  pub opened : s.image_open ≡ leb firmware_header_bytes (length (stream ++ bytes))
  pub written : s.image_open ≡ true → image ++ drop copied bytes ≡ stream ++ bytes

Between-Receives :
    (s : Service) (stream bytes image : List ℕ) (copied : ℕ)
    → Between s stream bytes image copied
    → Receives (advanced s bytes) (stream ++ bytes) (image ++ drop copied bytes)
Between-Receives s stream bytes image copied b = record {
  phase_now = b.phase_now;
  counted = omega (arith, b.counted, b.room, b.word, length-append stream bytes);
  room = omega (arith, b.counted, b.room, b.word);
  word = b.word;
  larger = b.larger;
  head = b.head;
  checked = ap (λ c. firmware_crc32 bytes c) b.checked ∙ sym (firmware_crc32-append stream bytes 0);
  opened = b.opened;
  written = b.written;
}

Receives-image :
    (s : Service) (stream image image' : List ℕ)
    → Receives s stream image
    → (s.image_open ≡ true → image' ≡ image)
    → Receives s stream image'
Receives-image s stream image image' r same = record {
  phase_now = r.phase_now;
  counted = r.counted;
  room = r.room;
  word = r.word;
  larger = r.larger;
  head = r.head;
  checked = r.checked;
  opened = r.opened;
  written = λ q. same q ∙ r.written q;
}

pub write_rest-cases :
    (s : Service) (w : Flash) (stream bytes image : List ℕ) (copied : ℕ) (es : List Effect)
    → Between s stream bytes (stored image es) copied
    → Takes (stream ++ bytes) image (write_rest s w bytes copied es)
      ⊎ Fails (write_rest s w bytes copied es)
unfolding write_rest
write_rest-cases s w stream bytes image copied es b =
    let received = Between-Receives s stream bytes (stored image es) copied b in
    let receives_at =
      Receives-image (advanced s bytes) (stream ++ bytes) (stored image es ++ drop copied bytes) in
    elim (Bool-cases (s.image_open && ltb copied (length bytes))) [
      | inr over ↦
          rw over (inl (refl, receives_at (stored image es) received (λ q. nothing_left q over)))
      | inl more ↦ elim (Bool-cases (is_ok w.rest_written)) [
        | inl done ↦
            rw (more, done)
              (inl (
                refl,
                receives_at (stored image (es ++ writes_image (drop copied bytes) ∷ [])) received
                    (λ q. stored-write image es (drop copied bytes)),
              ))
        | inr failed_write ↦
            rw (more, failed_write)
              (inr (
                fail_firmware-Fails w.rest_written (es ++ writes_image (drop copied bytes) ∷ []) s
                  failed_write))
      ]
    ]
  where
    nothing_left :
        s.image_open ≡ true
        → s.image_open && ltb copied (length bytes) ≡ false
        → stored image es ≡ stored image es ++ drop copied bytes
    nothing_left q over = sym (
        ap (λ xs. stored image es ++ xs) (drop-all copied bytes (ground arith))
        ∙ append-nil (stored image es))

pub open_image-cases :
    (s : Service) (w : Flash) (stream bytes image : List ℕ) (copied : ℕ)
    → Between (record s { image_open = true }) stream bytes s.header copied
    → Takes (stream ++ bytes) image (open_image s w bytes copied)
      ⊎ Fails (open_image s w bytes copied)
unfolding open_image stored
open_image-cases s w stream bytes image copied b =
    let chosen = select_update_target s.boot w.select s.firmware.image_bytes in
    let begins = begins_image chosen.1 s.firmware.image_bytes s.header in
    elim (Bool-cases (is_ok chosen.0)) [
      | inr unavailable ↦ rw unavailable (inr (fail_firmware-Fails chosen.0 [] s unavailable))
      | inl available ↦ elim (Bool-cases (same_partition chosen.1 s.firmware.target)) [
        | inr moved ↦ rw (available, moved) (inr (fail_firmware-Fails invalid_layout [] s refl))
        | inl still ↦ elim (Bool-cases (is_ok w.begun)) [
          | inr refused ↦
              rw (available, still, refused)
                (inr (fail_firmware-Fails w.begun (begins ∷ []) s refused))
          | inl erased ↦ elim (Bool-cases (is_ok w.header_written)) [
            | inr unwritten ↦
                rw (available, still, erased, unwritten)
                  (inr (
                    fail_firmware-Fails w.header_written (begins ∷ writes_image s.header ∷ [])
                      (record s { image_open = true }) unwritten))
            | inl header_done ↦
                rw (available, still, erased, header_done)
                  (write_rest-cases (record s { image_open = true }) w stream bytes image copied
                    (begins ∷ writes_image s.header ∷ []) b)
          ]
        ]
      ]
    ]
