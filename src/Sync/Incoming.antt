-- ===== src/Sync/Incoming.antt =====
-- The operations on received values of `SyncEngine`,
-- components/note4_companion/note4_sync_engine.cc. An operation takes the store's answer to a save
-- as an argument, and returns its status and the new state. A pointer into an array is an index;
-- where a save fails the entries that were overwritten are put back.
use zectrix_note4_platform.Base.{
  Bool, List, Option, false, get_elem?, get_or, if◌then◌else◌, leb, ltb, none, not, set, some, true,
  ℕ, ◌&&◌, ◌==◌, ◌||◌,
}
use zectrix_note4_platform.Sync.Table.{last_index_of, find, slot, holds}
use zectrix_note4_platform.Sync.State.{
  value_too_large, apply_required, ok, input_size, not_found, duplicate, outbox_full,
  value_capacity, invalid_argument, content, same_bytes, blank_entry, durable, blank_cursor,
  not_initialized, by_cursor, SyncStatus, Input, DurableEntry, CursorEntry, Engine, is_dangling,
  revision_conflict,
}
use zectrix_note4_platform.Sync.Persist.{keep_or, Saved, persist}

abbrev pub is_applied : ℕ → Option CursorEntry → Bool
is_applied revision none = false
is_applied revision (some c) = leb revision c.inbound_applied

unfoldable pub inspect_incoming_state : Engine → ℕ → ℕ → SyncStatus
inspect_incoming_state e key revision =
    if not e.has_store
    then not_initialized
    else if key == 0 || revision == 0
    then invalid_argument
    else if is_applied revision (find by_cursor key e.cursors)
    then duplicate
    else apply_required

unfoldable pub commit_at : (List ℕ → Bool) → Engine → ℕ → ℕ → ℕ → Option ℕ → Saved
commit_at save e key revision c none =
    let previous = get_or e.cursors c blank_cursor in
    keep_or (λ e'. record e' { cursors = set e'.cursors c previous })
      (persist save (record e {
        cursors =
            set e.cursors c
              (record previous { key = key; valid = true; inbound_applied = revision });
      }))
commit_at save e key revision c (some i) =
    let previous = get_or e.cursors c blank_cursor in
    let previous_value = get_or e.inbox i blank_entry in
    keep_or
      (λ e'. record e' {
        inbox = set e'.inbox i previous_value;
        cursors = set e'.cursors c previous;
      })
      (persist save (record e {
        inbox = set e.inbox i (record previous_value { valid = false });
        cursors =
            set e.cursors c
              (record previous { key = key; valid = true; inbound_applied = revision });
      }))

abbrev pub requires_apply : SyncStatus → Bool
requires_apply apply_required = true
requires_apply _ = false

unfoldable pub commit_incoming_state : (List ℕ → Bool) → Engine → ℕ → ℕ → Saved
unfolding inspect_incoming_state
commit_incoming_state save e key revision =
    let inspection = inspect_incoming_state e key revision in
    if not (requires_apply inspection)
    then (inspection, e)
    else elim (slot by_cursor key e.cursors) [
      | none ↦ (outbox_full, e)
      | some c ↦ commit_at save e key revision c (last_index_of (holds durable key) e.inbox)
    ]

unfoldable pub accept_at : (List ℕ → Bool) → Engine → ℕ → ℕ → Input → ℕ → ℕ → Saved
accept_at save e key revision value i c =
    let previous_entry = get_or e.inbox i blank_entry in
    let previous_cursor = get_or e.cursors c blank_cursor in
    keep_or
      (λ e'. record e' {
        inbox = set e'.inbox i previous_entry;
        cursors = set e'.cursors c previous_cursor;
      })
      (persist save (record e {
        inbox =
            set e.inbox i
              (record { key = key; revision = revision; value = content value; valid = true });
        cursors =
            set e.cursors c
              (record previous_cursor { valid = true; key = key; inbound_applied = revision });
      }))

-- A duplicate may not carry another value.
abbrev pub is_conflicting : ℕ → Input → Option DurableEntry → Bool
is_conflicting revision value none = false
is_conflicting revision value (some x) =
    x.valid && x.revision == revision && not (same_bytes x.value (content value))

abbrev pub is_duplicate : SyncStatus → Bool
is_duplicate duplicate = true
is_duplicate _ = false

abbrev pub slot_entry : List DurableEntry → Option ℕ → Option DurableEntry
slot_entry xs none = none
slot_entry xs (some i) = get_elem? xs i

unfoldable pub accept_incoming_state : (List ℕ → Bool) → Engine → ℕ → ℕ → Input → Saved
unfolding inspect_incoming_state
accept_incoming_state save e key revision value =
    let inspection = inspect_incoming_state e key revision in
    let free = slot durable key e.inbox in
    if ltb value_capacity (input_size value)
    then (value_too_large, e)
    else if is_dangling value
    then (invalid_argument, e)
    else if is_duplicate inspection
    then (
      if is_conflicting revision value (slot_entry e.inbox free)
          then revision_conflict
          else inspection,
      e,
    )
    else if not (requires_apply inspection)
    then (inspection, e)
    else elim free [
      | none ↦ (outbox_full, e)
      | some i ↦ elim (slot by_cursor key e.cursors) [
        | none ↦ (outbox_full, e)
        | some c ↦ accept_at save e key revision value i c
      ]
    ]

unfoldable pub read_incoming_state : Engine → ℕ → SyncStatus × Option DurableEntry
read_incoming_state e key =
    if not e.has_store
    then (not_initialized, none)
    else if key == 0
    then (invalid_argument, none)
    else elim (find durable key e.inbox) [ none ↦ (not_found, none) | some x ↦ (ok, some x) ]
