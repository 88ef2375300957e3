-- ===== src/Update/Transfer.antt =====
-- The calls of a firmware service, and what an observer of them has seen.
-- components/note4_update/note4_update_stream.cc.
use zectrix_note4_platform.Base.{
  List, [], false, if◌then◌else◌, true, u32_mod, ℕ, ◌++◌, ◌<◌, ◌∷◌, ◌≡◌,
}
use zectrix_note4_platform.Boot.{is_ok}
use zectrix_note4_platform.Update.{
  Service, Flash, Outcome, is_receiving, begin_firmware, write_firmware_chunk, commit_firmware,
  abort_firmware, service_begin_boot, service_confirm_boot,
}
use zectrix_note4_platform.Update.Bytes.{stored}
use zectrix_note4_platform.Update.Receiving.{Receives}

-- A call; the sizes and CRCs are `uint32_t`.
pub data Call : Type 0 where
  boots confirms_boot : Flash → Call
  begins : Flash → ℕ → ℕ → Call
  writes : Flash → ℕ → List ℕ → ℕ → Call
  commits : Flash → Call
  aborts : Call

-- The service with the bytes that were accepted since the last begin, and the flash's image.
pub record Seen : Type 0 where
  pub service : Service
  pub stream : List ℕ
  pub image : List ℕ

abbrev pub note_begin : Seen → Outcome → Seen
note_begin v o = record {
  service = o.1;
  stream = if is_ok o.0 then [] else v.stream;
  image = stored v.image o.2;
}

abbrev pub note_write : Seen → List ℕ → Outcome → Seen
note_write v bytes o = record {
  service = o.1;
  stream = if is_ok o.0 then v.stream ++ bytes else v.stream;
  image = stored v.image o.2;
}

unfoldable pub step : Seen → Call → Seen
step v (boots w) = record v { service = service_begin_boot v.service w }
step v (confirms_boot w) = record v { service = service_confirm_boot v.service w }
step v (begins w size crc) = note_begin v (begin_firmware v.service w size crc)
step v (writes w offset bytes crc) =
    note_write v bytes (write_firmware_chunk v.service w offset bytes crc)
step v (commits w) = record v {
  service = (commit_firmware v.service w).1;
  image = stored v.image (commit_firmware v.service w).2;
}
step v aborts = record v {
  service = (abort_firmware v.service).0;
  image = stored v.image (abort_firmware v.service).1;
}

unfoldable pub run : Seen → List Call → Seen
run v [] = v
run v (c ∷ cs) = run (step v c) cs

abbrev pub IsWord : Call → Type 0
IsWord (begins w size crc) = size < u32_mod
IsWord _ = Unit

pub record IsReceived (v : Seen) : Type 0 where
  pub receives : is_receiving v.service.firmware.phase ≡ true → Receives v.service v.stream v.image
  pub closed : is_receiving v.service.firmware.phase ≡ false → v.service.image_open ≡ false
