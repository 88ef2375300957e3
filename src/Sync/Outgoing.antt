-- ===== src/Sync/Outgoing.antt =====
-- The operations on values to be sent of `SyncEngine`,
-- components/note4_companion/note4_sync_engine.cc. An operation takes the store's answer to a save
-- as an argument, and returns its status and the new state. A pointer into an array is an index;
-- where a save fails the entries that were overwritten are put back.
use zectrix_note4_platform.Base.{
  Bool, List, Option, [], false, get_elem?, get_or, if◌then◌else◌, leb, ltb, none, not, set, some,
  true, ℕ, ◌+◌, ◌==◌, ◌||◌, ◌∷◌,
}
use zectrix_note4_platform.Sync.Table.{find, slot, index_of, holds}
use zectrix_note4_platform.Sync.State.{
  input_size, revision_conflict, ok, same_bytes, value_capacity, durable, content, stale_revision,
  outbox_full, is_dangling, invalid_argument, duplicate, not_found, not_initialized, blank_cursor,
  by_cursor, blank_entry, Input, SyncStatus, DurableEntry, CursorEntry, Engine, value_too_large,
}
use zectrix_note4_platform.Sync.Persist.{keep_or, Saved, persist}

abbrev pub is_acknowledged : ℕ → Option CursorEntry → Bool
is_acknowledged revision none = false
is_acknowledged revision (some c) = leb revision c.outbound_acknowledged

-- The tail of `PutDurableState`: outbox slot `i`, cursor slot `c`.
unfoldable pub put_at : (List ℕ → Bool) → Engine → ℕ → ℕ → Input → ℕ → ℕ → Saved
put_at save e key revision value i c =
    let previous_cursor = get_or e.cursors c blank_cursor in
    let previous = get_or e.outbox i blank_entry in
    keep_or
      (λ e'. record e' {
        outbox = set e'.outbox i previous;
        cursors = set e'.cursors c previous_cursor;
      })
      (persist save (record e {
        cursors = set e.cursors c (record previous_cursor { key = key; valid = true });
        outbox =
            set e.outbox i
              (record { key = key; revision = revision; value = content value; valid = true });
      }))

-- From the choice of the outbox slot on.
unfoldable pub put_reserved : (List ℕ → Bool) → Engine → ℕ → ℕ → Input → ℕ → Saved
put_reserved save e key revision value i = elim (slot by_cursor key e.cursors) [
  | none ↦ (outbox_full, e)
  | some c ↦ put_at save e key revision value i c
]

unfoldable pub put_over : (List ℕ → Bool) → Engine → ℕ → ℕ → Input → ℕ → Saved
put_over save e key revision value i =
    let old = get_or e.outbox i blank_entry in
    if ltb revision old.revision
    then (stale_revision, e)
    else if revision == old.revision
    then (if same_bytes (content value) old.value then duplicate else revision_conflict, e)
    else put_reserved save e key revision value i

-- The choice of the outbox slot: that of the key, or else the first free one.
unfoldable pub put_placed : (List ℕ → Bool) → Engine → ℕ → ℕ → Input → Saved
put_placed save e key revision value = elim (index_of (holds durable key) e.outbox) [
  | some i ↦ put_over save e key revision value i
  | none ↦ elim (index_of (λ x. not x.valid) e.outbox) [
    | none ↦ (outbox_full, e)
    | some i ↦ put_reserved save e key revision value i
  ]
]

unfoldable pub put_durable_state : (List ℕ → Bool) → Engine → ℕ → ℕ → Input → Saved
put_durable_state save e key revision value =
    if not e.has_store
    then (not_initialized, e)
    else if key == 0 || revision == 0 || is_dangling value
    then (invalid_argument, e)
    else if ltb value_capacity (input_size value)
    then (value_too_large, e)
    else if is_acknowledged revision (find by_cursor key e.cursors)
    then (stale_revision, e)
    else put_placed save e key revision value

-- `NextDurableState`: the first pending entry.
unfoldable pub next_durable_state : Engine → SyncStatus × Option DurableEntry
next_durable_state e =
    if not e.has_store then (not_initialized, none) else elim (index_of (λ x. x.valid) e.outbox) [
      | none ↦ (not_found, none)
      | some i ↦ (ok, get_elem? e.outbox i)
    ]

unfoldable pub acknowledge_at : (List ℕ → Bool) → Engine → ℕ → ℕ → ℕ → ℕ → Saved
acknowledge_at save e key revision i c =
    let prior_entry = get_or e.outbox i blank_entry in
    let prior_cursor = get_or e.cursors c blank_cursor in
    if leb revision prior_cursor.outbound_acknowledged
    then (duplicate, e)
    else keep_or
        (λ e'. record e' {
          outbox = set e'.outbox i prior_entry;
          cursors = set e'.cursors c prior_cursor;
        })
        (persist save (record e {
          outbox =
              if revision == prior_entry.revision
              then set e.outbox i (record prior_entry { valid = false })
              else e.outbox;
          cursors =
              set e.cursors c
                (record prior_cursor { key = key; valid = true; outbound_acknowledged = revision });
        }))

unfoldable pub acknowledge_durable_state : (List ℕ → Bool) → Engine → ℕ → ℕ → Saved
acknowledge_durable_state save e key revision =
    if not e.has_store
    then (not_initialized, e)
    else if key == 0 || revision == 0
    then (invalid_argument, e)
    else elim (index_of (holds durable key) e.outbox) [
      | none ↦ (
        if is_acknowledged revision (find by_cursor key e.cursors) then duplicate else not_found,
        e,
      )
      | some i ↦
          if ltb (get_or e.outbox i blank_entry).revision revision
          then (revision_conflict, e)
          else elim (slot by_cursor key e.cursors) [
            | none ↦ (outbox_full, e)
            | some c ↦ acknowledge_at save e key revision i c
          ]
    ]

unfoldable pub count_valid : List DurableEntry → ℕ
count_valid [] = 0
count_valid (x ∷ xs) = let rest = count_valid xs in if x.valid then rest + 1 else rest

unfoldable pub pending_durable_count : Engine → ℕ
pending_durable_count e = count_valid e.outbox
