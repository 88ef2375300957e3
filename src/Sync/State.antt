-- ===== src/Sync/State.antt =====
-- The state of the sync engine, components/note4_companion/include/note4_sync_engine.h.
use zectrix_note4_platform.Base.{
  Bool, List, [], false, length, not, replicate, true, ℕ, ◌&&◌, ◌==◌, ◌∷◌,
}
use zectrix_note4_platform.Sync.Table.{Keyed}

-- `kDurableKeyCapacity` and so on.
abbrev pub key_capacity : ℕ
key_capacity = 8

abbrev pub value_capacity : ℕ
value_capacity = 256

abbrev pub command_capacity : ℕ
command_capacity = 16

abbrev pub result_capacity : ℕ
result_capacity = 32

abbrev pub maximum_record_size : ℕ
maximum_record_size = 5376

pub data SyncStatus : Type 0 where
  ok not_initialized invalid_argument value_too_large outbox_full stale_revision : SyncStatus
  revision_conflict not_found store_error corrupt_store apply_required duplicate : SyncStatus
  resync_required : SyncStatus

-- `value` is the first `value_size` bytes of the array; the rest is never read.
pub record DurableEntry : Type 0 where
  pub key : ℕ
  pub revision : ℕ
  pub value : List ℕ
  pub valid : Bool

pub record CursorEntry : Type 0 where
  pub key : ℕ
  pub outbound_acknowledged : ℕ
  pub inbound_applied : ℕ
  pub valid : Bool

pub record CommandEntry : Type 0 where
  pub request_id : ℕ
  pub stamp : ℕ
  pub result : ℕ
  pub payload : List ℕ
  pub valid : Bool

-- `has_store` is `store_ != nullptr`. `persistence_buffer_` is scratch space of `Persist` and
-- `Initialize` and has no place here.
pub record Engine : Type 0 where
  pub has_store : Bool
  pub outbox : List DurableEntry
  pub inbox : List DurableEntry
  pub cursors : List CursorEntry
  pub commands : List CommandEntry
  pub generation : ℕ
  pub next_command_stamp : ℕ
  pub recovered_from_corrupt : Bool

abbrev pub blank_entry : DurableEntry
blank_entry = record { key = 0; revision = 0; value = []; valid = false }

abbrev pub blank_cursor : CursorEntry
blank_cursor = record { key = 0; outbound_acknowledged = 0; inbound_applied = 0; valid = false }

abbrev pub blank_command : CommandEntry
blank_command = record { request_id = 0; stamp = 0; result = 0; payload = []; valid = false }

-- `Reset`.
unfoldable pub reset : Engine
reset = record {
  has_store = false;
  outbox = replicate key_capacity blank_entry;
  inbox = replicate key_capacity blank_entry;
  cursors = replicate key_capacity blank_cursor;
  commands = replicate command_capacity blank_command;
  generation = 0;
  next_command_stamp = 1;
  recovered_from_corrupt = false;
}

abbrev pub durable : Keyed DurableEntry
durable = record { key = λ e. e.key; valid = λ e. e.valid }

abbrev pub by_cursor : Keyed CursorEntry
by_cursor = record { key = λ c. c.key; valid = λ c. c.valid }

abbrev pub by_request : Keyed CommandEntry
by_request = record { key = λ c. c.request_id; valid = λ c. c.valid }

-- A pointer and a size: `null n` is the null pointer with size `n`.
pub data Input : Type 0 where
  null : ℕ → Input
  bytes : List ℕ → Input

abbrev pub input_size : Input → ℕ
input_size (null n) = n
input_size (bytes bs) = length bs

abbrev pub is_dangling : Input → Bool
is_dangling (null n) = not (n == 0)
is_dangling (bytes bs) = false

abbrev pub content : Input → List ℕ
content (null n) = []
content (bytes bs) = bs

-- `std::memcmp(a, b, n) == 0` behind a comparison of the sizes.
pub same_bytes : List ℕ → List ℕ → Bool
same_bytes [] [] = true
same_bytes (a ∷ as') (b ∷ bs) = a == b && same_bytes as' bs
same_bytes _ _ = false
