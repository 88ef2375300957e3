-- ===== src/Update.antt =====
-- The firmware stream of `UpdateService`, components/note4_update/note4_update_stream.cc and
-- include/note4_update_service.h: chunks of an image, checked one by one, are written to the
-- inactive slot. The backend is an argument: `Answers` holds what it returns during one call, and a
-- call returns what it asked of the flash, in order.
pub mod Bytes
pub mod Receiving
pub mod Chunk
pub mod Transfer
pub mod Commit
pub mod History
mod Tests
use zectrix_note4_platform.Base.{
  Bool, List, [], add32, drop, false, if◌then◌else◌, leb, length, ltb, min, not, sub32, take, true,
  ℕ, ◌&&◌, ◌++◌, ◌-◌, ◌==◌, ◌||◌, ◌∷◌,
}
use zectrix_note4_platform.Boot.{
  Partition, Result, no_partition, same_partition, is_ok, ok, invalid_argument, invalid_layout,
  boot_mismatch, invalid_state, checksum_mismatch, incomplete_image, unexpected_offset,
}
use zectrix_note4_platform.Boot.Guard.{
  begin_boot, confirm_boot, Guard, Answers, select_update_target, failed,
}
use zectrix_note4_platform.Crc.{firmware_crc32}

-- `kMaximumFirmwareChunkBytes` and `kFirmwareHeaderBytes`.
abbrev pub maximum_firmware_chunk_bytes : ℕ
maximum_firmware_chunk_bytes = 4096

abbrev pub firmware_header_bytes : ℕ
firmware_header_bytes = 288

pub data FirmwarePhase : Type 0 where
  idle receiving transfer_failed committed : FirmwarePhase

pub record FirmwareStatus : Type 0 where
  pub target : Partition
  pub image_bytes : ℕ
  pub received_bytes : ℕ
  pub phase : FirmwarePhase

abbrev pub no_firmware : FirmwareStatus
no_firmware = record { target = no_partition; image_bytes = 0; received_bytes = 0; phase = idle }

-- `header` is the first `header_bytes_` bytes of `header_`; the rest is never read.
pub record Service : Type 0 where
  pub boot : Guard
  pub firmware : FirmwareStatus
  pub header : List ℕ
  pub expected_crc32 : ℕ
  pub received_crc32 : ℕ
  pub image_open : Bool

-- What the backend answers during one call: `select` is for the boot guard, the others are for
-- `BeginImage`, the two calls of `WriteImage` in `WriteFirmwareChunk`, and `CommitImage`.
pub record Flash : Type 0 where
  pub select : Answers
  pub begun : Result
  pub header_written : Result
  pub rest_written : Result
  pub committed_image : Result

pub data Effect : Type 0 where
  begins_image : Partition → ℕ → List ℕ → Effect
  writes_image : List ℕ → Effect
  commits_image : ℕ → Effect
  aborts_image : Effect

abbrev pub Outcome : Type 0
Outcome = Result × Service × List Effect

abbrev pub is_receiving : FirmwarePhase → Bool
is_receiving receiving = true
is_receiving _ = false

abbrev pub is_committed : FirmwarePhase → Bool
is_committed committed = true
is_committed _ = false

-- `BeginBoot` and `ConfirmBoot` of the service, without their results: those of its boot guard.
abbrev pub service_begin_boot : Service → Flash → Service
service_begin_boot s w = record s { boot = (begin_boot s.boot w.select).1 }

abbrev pub service_confirm_boot : Service → Flash → Service
service_confirm_boot s w = record s { boot = (confirm_boot s.boot w.select).1 }

-- `FailFirmware` after the effects `es`.
abbrev pub fail_firmware : Result → List Effect → Service → Outcome
fail_firmware r es s = (
  r,
  record s { image_open = false; firmware = record s.firmware { phase = transfer_failed } },
  es ++ aborts_image ∷ [],
)

unfoldable pub begin_firmware : Service → Flash → ℕ → ℕ → Outcome
begin_firmware s w image_bytes image_crc32 =
    let chosen = select_update_target s.boot w.select image_bytes in
    if is_receiving s.firmware.phase || is_committed s.firmware.phase
    then (invalid_state, s, [])
    else if leb image_bytes firmware_header_bytes
    then (invalid_argument, s, [])
    else if not (is_ok chosen.0)
    then (chosen.0, s, [])
    else (
      ok,
      record s {
        firmware = record {
          target = chosen.1;
          image_bytes = image_bytes;
          received_bytes = 0;
          phase = receiving;
        };
        header = [];
        expected_crc32 = image_crc32;
        received_crc32 = 0;
      },
      [],
    )

-- The progress at the end of `WriteFirmwareChunk`.
abbrev pub advanced : Service → List ℕ → Service
advanced s bytes = record s {
  received_crc32 = firmware_crc32 bytes s.received_crc32;
  firmware = record s.firmware { received_bytes = add32 s.firmware.received_bytes (length bytes) };
}

-- The end of `WriteFirmwareChunk`: the bytes behind the header, then the progress. `es` were the
-- effects before.
unfoldable pub write_rest : Service → Flash → List ℕ → ℕ → List Effect → Outcome
write_rest s w bytes copied es =
    if s.image_open && ltb copied (length bytes)
    then (if is_ok w.rest_written
        then (ok, advanced s bytes, es ++ writes_image (drop copied bytes) ∷ [])
        else fail_firmware w.rest_written (es ++ writes_image (drop copied bytes) ∷ []) s)
    else (ok, advanced s bytes, es)

-- The image is opened once the header is whole.
unfoldable pub open_image : Service → Flash → List ℕ → ℕ → Outcome
unfolding write_rest
open_image s w bytes copied =
    let chosen = select_update_target s.boot w.select s.firmware.image_bytes in
    let begins = begins_image chosen.1 s.firmware.image_bytes s.header in
    if not (is_ok chosen.0)
    then fail_firmware chosen.0 [] s
    else if not (same_partition chosen.1 s.firmware.target)
    then fail_firmware invalid_layout [] s
    else if not (is_ok w.begun)
    then fail_firmware w.begun (begins ∷ []) s
    else if not (is_ok w.header_written)
    then fail_firmware w.header_written (begins ∷ writes_image s.header ∷ [])
        (record s { image_open = true })
    else write_rest (record s { image_open = true }) w bytes copied
        (begins ∷ writes_image s.header ∷ [])

abbrev pub copied_bytes : Service → List ℕ → ℕ
copied_bytes s bytes = min (length bytes) (firmware_header_bytes - length s.header)

abbrev pub with_header : Service → List ℕ → Service
with_header s bytes = record s { header = s.header ++ take (copied_bytes s bytes) bytes }

abbrev pub is_complete : List ℕ → Bool
is_complete header = length header == firmware_header_bytes

-- Behind the checks of the chunk.
abbrev pub take_chunk : Service → Flash → List ℕ → Outcome
take_chunk s w bytes =
    if not s.image_open && is_complete (with_header s bytes).header
    then open_image (with_header s bytes) w bytes (copied_bytes s bytes)
    else write_rest (with_header s bytes) w bytes (copied_bytes s bytes) []

-- The checks, `kOk` where the chunk is taken. `room` is a `uint32_t`.
abbrev pub check_chunk : Service → ℕ → List ℕ → ℕ → Result
check_chunk s offset bytes chunk_crc32 =
    let room = sub32 s.firmware.image_bytes s.firmware.received_bytes in
    if not (is_receiving s.firmware.phase)
    then invalid_state
    else if length bytes == 0
        || ltb maximum_firmware_chunk_bytes (length bytes)
        || ltb room (length bytes)
    then invalid_argument
    else if not (offset == s.firmware.received_bytes)
    then unexpected_offset
    else if not (firmware_crc32 bytes 0 == chunk_crc32)
    then checksum_mismatch
    else ok

-- `WriteFirmwareChunk` with data that is not null.
unfoldable pub write_firmware_chunk : Service → Flash → ℕ → List ℕ → ℕ → Outcome
unfolding open_image write_rest
write_firmware_chunk s w offset bytes chunk_crc32 =
    if is_ok (check_chunk s offset bytes chunk_crc32)
    then take_chunk s w bytes
    else (check_chunk s offset bytes chunk_crc32, s, [])

-- The commit is done.
abbrev pub committed_outcome : Service → Outcome
committed_outcome s = (
  ok,
  record s {
    image_open = false;
    firmware = record s.firmware { phase = committed };
    boot = record s.boot {
      status = record s.boot.status { boot = s.firmware.target; layout_result = boot_mismatch };
    };
  },
  commits_image s.expected_crc32 ∷ [],
)

unfoldable pub commit_firmware : Service → Flash → Outcome
commit_firmware s w =
    let chosen = select_update_target s.boot w.select s.firmware.image_bytes in
    if not (is_receiving s.firmware.phase)
    then (invalid_state, s, [])
    else if not (s.firmware.received_bytes == s.firmware.image_bytes)
    then (incomplete_image, s, [])
    else if not (s.received_crc32 == s.expected_crc32)
    then fail_firmware checksum_mismatch [] s
    else if not (is_ok chosen.0)
    then fail_firmware chosen.0 [] s
    else if not (same_partition chosen.1 s.firmware.target)
    then fail_firmware invalid_layout [] s
    else if not (is_ok w.committed_image)
    then fail_firmware w.committed_image (commits_image s.expected_crc32 ∷ []) s
    else committed_outcome s

unfoldable pub abort_firmware : Service → Service × List Effect
abort_firmware s = (
  record s {
    image_open = false;
    firmware = if is_committed s.firmware.phase then s.firmware else no_firmware;
  },
  if s.image_open then aborts_image ∷ [] else [],
)
