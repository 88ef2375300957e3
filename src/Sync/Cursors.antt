-- ===== src/Sync/Cursors.antt =====
-- `Cursors` and `ReconcilePeerCursors`: what the two peers have of each other's values, compared
-- and caught up. components/note4_companion/note4_sync_engine.cc.
use zectrix_note4_platform.Base.{
  Bool, List, Option, [], all, any, false, get_or, if◌then◌else◌, leb, length, ltb, map, max, none,
  not, set, some, true, ℕ, ◌&&◌, ◌++◌, ◌+◌, ◌==◌, ◌||◌, ◌∷◌,
}
use zectrix_note4_platform.Sync.Table.{find, slot, holds}
use zectrix_note4_platform.Sync.State.{
  Engine, key_capacity, SyncStatus, DurableEntry, CursorEntry, blank_cursor, durable, by_cursor, ok,
  not_initialized, invalid_argument, outbox_full, resync_required,
}
use zectrix_note4_platform.Sync.Persist.{persist, Saved, is_ok, keep_or}

pub record SyncCursor : Type 0 where
  pub key : ℕ
  pub outbound_acknowledged : ℕ
  pub inbound_applied : ℕ
  pub pending_revision : ℕ

-- The loop over the outbox, the last match of which counts.
unfoldable pub pending_revision_of : ℕ → List DurableEntry → ℕ → ℕ
pending_revision_of key [] revision = revision
pending_revision_of key (x ∷ xs) revision =
    pending_revision_of key xs (if holds durable key x then x.revision else revision)

-- `Cursors`; the list is `entries[0 .. count)`.
unfoldable pub cursors_from : List DurableEntry → List CursorEntry → List SyncCursor
cursors_from outbox [] = []
cursors_from outbox (c ∷ cs) =
    let sync : SyncCursor = record {
      key = c.key;
      outbound_acknowledged = c.outbound_acknowledged;
      inbound_applied = c.inbound_applied;
      pending_revision = pending_revision_of c.key outbox 0;
    } in
    if c.valid then sync ∷ cursors_from outbox cs else cursors_from outbox cs

unfoldable pub cursors_of : Engine → List SyncCursor
cursors_of e = cursors_from e.outbox e.cursors

-- The lambda `find`.
unfoldable pub find_cursor : List SyncCursor → ℕ → SyncCursor
find_cursor [] key = record {
  key = key;
  outbound_acknowledged = 0;
  inbound_applied = 0;
  pending_revision = 0;
}
find_cursor (c ∷ cs) key = if c.key == key then c else find_cursor cs key

-- The lambda `compatible`.
unfoldable pub compatible : SyncCursor → SyncCursor → Bool
compatible own other =
    leb own.outbound_acknowledged other.inbound_applied
    && leb other.inbound_applied (max own.outbound_acknowledged own.pending_revision)
    && leb other.outbound_acknowledged own.inbound_applied
    && leb own.inbound_applied (max other.outbound_acknowledged other.pending_revision)

abbrev pub is_none : {A : Type 0} → Option A → Bool
is_none none = true
is_none (some a) = false

-- The loop over the peer's cursors: the status that refuses them, or `ok` with the number of keys.
-- `before` is what was looked at.
unfoldable pub check_peer : Engine → List SyncCursor → List SyncCursor → ℕ → SyncStatus × ℕ
check_peer e before [] keys = (ok, keys)
check_peer e before (other ∷ others) keys =
    let keys' = if is_none (find by_cursor other.key e.cursors) then keys + 1 else keys in
    let rest = check_peer e (before ++ other ∷ []) others keys' in
    if other.key == 0
      || (not (other.pending_revision == 0)
          && leb other.pending_revision other.outbound_acknowledged)
      || any (λ b. b.key == other.key) before
    then (invalid_argument, keys)
    else if not (compatible (find_cursor (cursors_of e) other.key) other)
    then (resync_required, keys')
    else rest

-- The value of an entry that the peer has applied is pending no longer.
abbrev pub is_retired : ℕ → ℕ → DurableEntry → Bool
is_retired key revision x = holds durable key x && leb x.revision revision

unfoldable pub retire : ℕ → ℕ → List DurableEntry → List DurableEntry
retire key revision = map (λ x. if is_retired key revision x then record x { valid = false } else x)

-- One round of the loop that takes the peer's cursors over; `none` is the null pointer of
-- `FindCursorSlot`.
unfoldable pub apply_cursor : SyncCursor → Engine × Bool → Option (Engine × Bool)
apply_cursor other (e, changed) = elim (slot by_cursor other.key e.cursors) [
  | none ↦ none
  | some i ↦
      let cursor = get_or e.cursors i blank_cursor in
      some (
        record e {
          cursors = set e.cursors i (record cursor {
            valid = true;
            key = other.key;
            outbound_acknowledged = other.inbound_applied;
          });
          outbox = retire other.key other.inbound_applied e.outbox;
        },
        changed
            || (not cursor.valid || not (cursor.outbound_acknowledged == other.inbound_applied))
            || any (is_retired other.key other.inbound_applied) e.outbox,
      )
]

unfoldable pub apply_cursors : List SyncCursor → Engine × Bool → Option (Engine × Bool)
apply_cursors [] s = some s
apply_cursors (other ∷ others) s = elim (apply_cursor other s) [
  | none ↦ none
  | some s' ↦ apply_cursors others s'
]

-- Behind the checks. `none` is a null pointer followed.
unfoldable pub take_over : (List ℕ → Bool) → List SyncCursor → Engine → Option Saved
take_over save peer e = elim (apply_cursors peer (e, false)) [
  | none ↦ none
  | some (e', changed) ↦
      if changed
      then some
          (keep_or (λ x. record x { cursors = e.cursors; outbox = e.outbox }) (persist save e'))
      else some (ok, e')
]

unfoldable pub reconcile_peer_cursors : (List ℕ → Bool) → List SyncCursor → Engine → Option Saved
reconcile_peer_cursors save peer e =
    let local = cursors_of e in
    let checked = check_peer e [] peer (length local) in
    if not e.has_store
    then some (not_initialized, e)
    else if ltb key_capacity (length peer)
    then some (invalid_argument, e)
    else if not (is_ok checked.0)
    then some (checked.0, e)
    else if not (all (λ own. compatible own (find_cursor peer own.key)) local)
    then some (resync_required, e)
    else if ltb key_capacity checked.1
    then some (outbox_full, e)
    else take_over save peer e
