-- ===== src/Sync/Load.antt =====
-- `Initialize` and `LoadState`: the state from the record that the store has kept.
-- components/note4_companion/note4_sync_engine.cc. A state that is refused is thrown away whole, so
-- it is `none` here.
use zectrix_note4_platform.Base.{
  Bool, List, Option, [], add32, drop, false, get_or, if◌then◌else◌, leb, length, ltb, max, none,
  not, set, some, suc, take, true, zero, ℕ, ◌&&◌, ◌+◌, ◌-◌, ◌==◌, ◌||◌, ◌∷◌,
}
use zectrix_note4_platform.Crc.{crc32}
use zectrix_note4_platform.Protocol.{u16_at, u32_at}
use zectrix_note4_platform.Sync.Table.{find, slot, index_of, Keyed}
use zectrix_note4_platform.Sync.State.{
  Engine, value_capacity, result_capacity, maximum_record_size, SyncStatus, DurableEntry,
  CursorEntry, CommandEntry, blank_cursor, reset, durable, by_cursor, by_request, ok, store_error,
  corrupt_store,
}
use zectrix_note4_platform.Sync.Persist.{
  store_magic, store_version, store_header_size, store_crc_size, outbox_type, cursor_type,
  command_type, inbox_type,
}

-- The loop's variables: the engine, and `maximum_stamp`.
pub record Loading : Type 0 where
  pub engine : Engine
  pub maximum_stamp : ℕ

-- The loop over an array for a new key: its first free slot, unless the key is there already.
unfoldable pub free_slot : {A : Type 0} → Keyed A → ℕ → List A → Option ℕ
free_slot t k xs = elim (find t k xs) [ some x ↦ none | none ↦ index_of (λ x. not (t.valid x)) xs ]

-- A record of the outbox or the inbox.
unfoldable pub load_entry : List ℕ → List DurableEntry → Option (List DurableEntry)
load_entry bs entries =
    let key = u16_at bs 0 in
    let revision = u32_at bs 2 in
    let value_size = u16_at bs 6 in
    if ltb (length bs) 8 || ltb value_capacity value_size || not (8 + value_size == length bs)
    then none
    else elim (free_slot durable key entries) [
      | none ↦ none
      | some i ↦
          if key == 0 || revision == 0
          then none
          else some (
              set entries i (record {
                key = key;
                revision = revision;
                value = take value_size (drop 8 bs);
                valid = true;
              }))
    ]

unfoldable pub load_cursor : List ℕ → List CursorEntry → Option (List CursorEntry)
load_cursor bs cursors =
    let key = u16_at bs 0 in
    if not (length bs == 10) then none else elim (free_slot by_cursor key cursors) [
      | none ↦ none
      | some i ↦
          if key == 0
          then none
          else some (
              set cursors i (record {
                key = key;
                outbound_acknowledged = u32_at bs 2;
                inbound_applied = u32_at bs 6;
                valid = true;
              }))
    ]

-- The command of a record.
abbrev pub command_of : List ℕ → CommandEntry
command_of bs = record {
  request_id = u32_at bs 0;
  stamp = u32_at bs 4;
  result = u16_at bs 8;
  payload = take (get_or bs 10 0) (drop 12 bs);
  valid = true;
}

unfoldable pub load_command : List ℕ → List CommandEntry → Option (List CommandEntry)
load_command bs commands =
    let payload_size = get_or bs 10 0 in
    if ltb (length bs) 12
      || not (get_or bs 11 0 == 0)
      || ltb result_capacity payload_size
      || not (12 + payload_size == length bs)
    then none
    else elim (free_slot by_request (u32_at bs 0) commands) [
      | none ↦ none
      | some i ↦
          if u32_at bs 0 == 0 || u32_at bs 4 == 0
          then none
          else some (set commands i (command_of bs))
    ]

abbrev pub with_table : {A : Type 0} → (A → Loading) → Option A → Option Loading
with_table f none = none
with_table f (some t) = some (f t)

-- One record of a type; the inbox came with version 2.
unfoldable pub load_one : ℕ → ℕ → List ℕ → Loading → Option Loading
load_one version type bs l =
    let e = l.engine in
    if type == outbox_type
    then with_table (λ t. record l { engine = record e { outbox = t } }) (load_entry bs e.outbox)
    else if type == inbox_type
    then if version == 1
      then none
      else with_table (λ t. record l { engine = record e { inbox = t } }) (load_entry bs e.inbox)
    else if type == cursor_type
    then with_table (λ t. record l { engine = record e { cursors = t } }) (load_cursor bs e.cursors)
    else if type == command_type
    then with_table
        (λ t. record {
          engine = record e { commands = t };
          maximum_stamp = max l.maximum_stamp (command_of bs).stamp;
        })
        (load_command bs e.commands)
    else none

-- The loop over the body's bytes, on fuel; every round takes at least four bytes, so their number is
-- enough.
unfoldable pub load_records : ℕ → ℕ → List ℕ → Loading → Option Loading
load_records fuel version [] l = some l
load_records zero version (b ∷ bs) l = none
load_records (suc fuel) version (b ∷ bs) l =
    let size = u16_at (b ∷ bs) 2 in
    if ltb (length (b ∷ bs)) 4 || not (get_or (b ∷ bs) 1 0 == 0)
    then none
    else if ltb (length (b ∷ bs) - 4) size
    then none
    else elim (load_one version b (take size (drop 4 (b ∷ bs))) l) [
      | none ↦ none
      | some l' ↦ load_records fuel version (drop (4 + size) (b ∷ bs)) l'
    ]

-- A cursor for every pending key, which version 1 did not reserve.
unfoldable pub reserve_keys : List DurableEntry → List CursorEntry → Option (List CursorEntry)
reserve_keys [] cursors = some cursors
reserve_keys (x ∷ xs) cursors = elim x.valid [
  | false ↦ reserve_keys xs cursors
  | true ↦ elim (slot by_cursor x.key cursors) [
    | none ↦ none
    | some i ↦ elim (leb x.revision (get_or cursors i blank_cursor).outbound_acknowledged) [
      | true ↦ none
      | false ↦
          reserve_keys xs
            (set cursors i (record (get_or cursors i blank_cursor) { valid = true; key = x.key }))
    ]
  ]
]

-- Every received value is the one that its cursor says was applied.
unfoldable pub are_current : List DurableEntry → List CursorEntry → Bool
are_current [] cursors = true
are_current (x ∷ xs) cursors =
    (not x.valid || elim (find by_cursor x.key cursors) [
      | none ↦ false
      | some c ↦ c.inbound_applied == x.revision
    ])
    && are_current xs cursors

-- Behind the loop.
unfoldable pub settle : Loading → Option Engine
settle l = elim (reserve_keys l.engine.outbox l.engine.cursors) [
  | none ↦ none
  | some cursors ↦
      if are_current l.engine.inbox cursors
      then some (record l.engine {
        cursors = cursors;
        next_command_stamp = if add32 l.maximum_stamp 1 == 0 then 1 else add32 l.maximum_stamp 1;
      })
      else none
]

-- The checks of the record before its body is read.
unfoldable pub is_record : List ℕ → Bool
is_record bs =
    let body_size = u16_at bs 12 in
    leb (store_header_size + store_crc_size) (length bs)
    && leb (length bs) maximum_record_size
    && u32_at bs 0 == store_magic
    && (u16_at bs 4 == 1 || u16_at bs 4 == store_version)
    && u16_at bs 6 == store_header_size
    && u16_at bs 14 == 0
    && store_header_size + body_size + store_crc_size == length bs
    && crc32 (take (length bs - store_crc_size) bs) 0
      == u32_at (drop (length bs - store_crc_size) bs) 0

unfoldable pub load_state : List ℕ → Engine → Option Engine
load_state bs e =
    let body = take (u16_at bs 12) (drop store_header_size bs) in
    let start : Loading = record {
      engine = record e { generation = u32_at bs 8 };
      maximum_stamp = 0;
    } in
    if is_record bs
    then elim (load_records (length body) (u16_at bs 4) body start) [
      | none ↦ none
      | some l ↦ settle l
    ]
    else none

-- What `Load` of the store gives.
pub data StoreRead : Type 0 where
  found : List ℕ → StoreRead
  not_there : StoreRead
  failed : StoreRead

abbrev pub with_store : Engine
with_store = record reset { has_store = true }

unfoldable pub initialize : StoreRead → SyncStatus × Engine
initialize (found bs) = elim (load_state bs with_store) [
  | some e ↦ (ok, e)
  | none ↦ (corrupt_store, record with_store { recovered_from_corrupt = true })
]
initialize not_there = (ok, with_store)
initialize failed = (store_error, reset)
