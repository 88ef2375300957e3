-- ===== src/Boot.antt =====
-- The boot guard and the layout of the update slots, components/note4_system/note4_boot_guard.cc and
-- its header. The backend (ESP-IDF behind `BootBackend`) is an argument: `Answers` holds what it
-- returns during one call, and a call returns the effects that it asked for in their order.
pub mod Scan
pub mod Layout
pub mod Guard
mod Tests
use zectrix_note4_platform.Base.{
  Bool, List, Option, [], false, if◌then◌else◌, ltb, none, not, some, take, true, ℕ, ◌%◌, ◌&&◌, ◌+◌,
  ◌-◌, ◌==◌, ◌||◌, ◌∷◌,
}

-- `kMaximumPartitions` and `kBootConfirmationTimeoutMs`.
abbrev pub maximum_partitions : ℕ
maximum_partitions = 32

abbrev pub boot_confirmation_timeout_ms : ℕ
boot_confirmation_timeout_ms = 60000

pub data Result : Type 0 where
  ok invalid_argument invalid_layout boot_mismatch invalid_state confirmation_required : Result
  image_too_large timeout io_error checksum_mismatch invalid_image incomplete_image : Result
  unexpected_offset : Result

pub data PartitionKind : Type 0 where
  other factory ota_a ota_b ota_data other_ota : PartitionKind

pub record Partition : Type 0 where
  pub kind : PartitionKind
  pub address : ℕ
  pub size : ℕ
  pub readonly : Bool

abbrev pub no_partition : Partition
no_partition = record { kind = other; address = 0; size = 0; readonly = false }

abbrev pub kind_code : PartitionKind → ℕ
kind_code other = 0
kind_code factory = 1
kind_code ota_a = 2
kind_code ota_b = 3
kind_code ota_data = 4
kind_code other_ota = 5

abbrev pub same_kind : PartitionKind → PartitionKind → Bool
same_kind a b = kind_code a == kind_code b

abbrev pub same_bool : Bool → Bool → Bool
same_bool true b = b
same_bool false b = not b

abbrev pub same_partition : Partition → Partition → Bool
same_partition l r =
    same_kind l.kind r.kind
    && l.address == r.address
    && l.size == r.size
    && same_bool l.readonly r.readonly

pub data ImageState : Type 0 where
  unknown factory_image new_image pending_verify valid_image invalid_image_state : ImageState
  aborted undefined : ImageState

-- `partitions` is the whole array, of which the first `partition_count` entries count.
pub record BootInfo : Type 0 where
  pub flash_bytes : ℕ
  pub partition_table_address : ℕ
  pub partitions : List Partition
  pub partition_count : ℕ
  pub running : Partition
  pub boot : Partition
  pub next_update : Partition
  pub image_state : ImageState
  pub rollback_available : Bool

abbrev pub is_application : PartitionKind → Bool
is_application kind = same_kind kind factory || same_kind kind ota_a || same_kind kind ota_b

abbrev pub is_factory_image : ImageState → Bool
is_factory_image factory_image = true
is_factory_image _ = false

abbrev pub is_valid_image : ImageState → Bool
is_valid_image valid_image = true
is_valid_image _ = false

abbrev pub is_pending_verify : ImageState → Bool
is_pending_verify pending_verify = true
is_pending_verify _ = false

abbrev pub known_good : BootInfo → Bool
known_good info =
    (same_kind info.running.kind factory && is_factory_image info.image_state)
    || ((same_kind info.running.kind ota_a || same_kind info.running.kind ota_b)
        && is_valid_image info.image_state)

abbrev pub is_ok : Result → Bool
is_ok ok = true
is_ok _ = false

-- `uint64_t` milliseconds since `started`.
abbrev pub since : ℕ → ℕ → ℕ
since started now = (now + 0x1_0000_0000_0000_0000 - started) % 0x1_0000_0000_0000_0000

-- The slots that the scan of the partitions fills.
pub record Slots : Type 0 where
  pub a : Option Partition
  pub b : Option Partition
  pub data_slot : Option Partition
  pub factory_slot : Option Partition
  pub running_found : Bool

abbrev pub no_slots : Slots
no_slots = record {
  a = none;
  b = none;
  data_slot = none;
  factory_slot = none;
  running_found = false;
}

abbrev pub end_of : Partition → ℕ
end_of p = p.address + p.size

-- The tests of one partition.
abbrev pub is_misplaced : BootInfo → Partition → Bool
is_misplaced info p =
    p.size == 0
    || ltb p.address (info.partition_table_address + 0x1000)
    || not (p.address % 0x1000 == 0)
    || not (p.size % 0x1000 == 0)
    || ltb info.flash_bytes (end_of p)
    || same_kind p.kind other_ota
    || (is_application p.kind && not (p.address % 0x10000 == 0))

-- The loop over the previous partitions.
unfoldable pub overlaps : Partition → List Partition → Bool
overlaps p [] = false
overlaps p (q ∷ qs) = (ltb p.address (end_of q) && ltb q.address (end_of p)) || overlaps p qs

abbrev pub once : Option Partition → Slots → Option Slots
once none s = some s
once (some taken) s = none

-- The slot of a kind may be filled once.
abbrev pub fill : Partition → Slots → Option Slots
fill p s = elim p.kind [
  | ota_a ↦ once s.a (record s { a = some p })
  | ota_b ↦ once s.b (record s { b = some p })
  | ota_data ↦ once s.data_slot (record s { data_slot = some p })
  | factory ↦ once s.factory_slot (record s { factory_slot = some p })
  | other ↦ some s
  | other_ota ↦ some s
]

abbrev pub note_running : BootInfo → Partition → Slots → Slots
note_running info p s =
    if same_partition p info.running then record s { running_found = true } else s

-- The loop over the partitions: `previous` are those before, the last one first.
unfoldable pub scan : BootInfo → List Partition → List Partition → Slots → Option Slots
scan info previous [] s = some s
scan info previous (p ∷ ps) s = elim (is_misplaced info p || overlaps p previous) [
  | true ↦ none
  | false ↦ elim (fill p s) [
    | none ↦ none
    | some s' ↦ scan info (p ∷ previous) ps (note_running info p s')
  ]
]

abbrev pub has_bad_table : BootInfo → Bool
has_bad_table info =
    info.partition_count == 0
    || ltb maximum_partitions info.partition_count
    || ltb info.partition_table_address 0x1000
    || not (info.partition_table_address % 0x1000 == 0)

abbrev pub choose : BootInfo → Partition → Partition → Partition → Slots → Result × Partition
choose info a b d s =
    if ltb d.size 0x2000
      || d.readonly
      || a.readonly
      || b.readonly
      || not s.running_found
      || not (is_application info.running.kind)
    then (invalid_layout, no_partition)
    else if not (same_partition info.running info.boot)
    then (boot_mismatch, no_partition)
    else (let inactive = if same_kind info.running.kind ota_a then b else a in
        if not (same_partition inactive info.next_update) || same_partition inactive info.running
        then (invalid_layout, no_partition)
        else (ok, inactive))

abbrev pub judge : BootInfo → Option Slots → Result × Partition
judge info none = (invalid_layout, no_partition)
judge info (some s) = elim s.a [
  | none ↦ (invalid_layout, no_partition)
  | some a ↦ elim s.b [
    | none ↦ (invalid_layout, no_partition)
    | some b ↦ elim s.data_slot [
      | none ↦ (invalid_layout, no_partition)
      | some d ↦ choose info a b d s
    ]
  ]
]

-- `VerifyPartitions`: the result and `*target`. The pointer is that of a caller's local.
unfoldable pub verify_partitions : BootInfo → Result × Partition
verify_partitions info =
    if has_bad_table info
    then (invalid_layout, no_partition)
    else judge info (scan info [] (take info.partition_count info.partitions) no_slots)
