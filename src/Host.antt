-- ===== src/Host.antt =====
-- The USB host protocol of the reader: one frame crosses from the USB worker to the foreground
-- owner. components/note4_host/include/note4_host_channel.h and note4_host_protocol.h.
pub mod Channel
pub mod Wire
mod Tests
use zectrix_note4_platform.Base.{List, replicate, ℕ, ◌+◌, ◌/◌}

-- `kPayloadSize`, `kHeaderSize`, and `kWireSize`.
abbrev pub payload_size : ℕ
payload_size = 1024

abbrev pub header_size : ℕ
header_size = 16

abbrev pub wire_size : ℕ
wire_size = header_size + payload_size + (header_size + payload_size) / 254 + 2

-- `payload` is the whole array, of which the first `size` bytes count. A received status byte is
-- cast to `Status` unchecked, so it is kept as a byte.
pub record Frame : Type 0 where
  pub operation : ℕ
  pub status : ℕ
  pub size : ℕ
  pub id : ℕ
  pub session : ℕ
  pub payload : List ℕ

abbrev pub empty_frame : Frame
empty_frame = record {
  operation = 0;
  status = 0;
  size = 0;
  id = 0;
  session = 0;
  payload = replicate payload_size 0;
}
