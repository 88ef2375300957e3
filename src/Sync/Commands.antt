-- ===== src/Sync/Commands.antt =====
-- The command results of `SyncEngine`,
-- components/note4_companion/note4_sync_engine.cc. An operation takes the store's answer to a save
-- as an argument, and returns its status and the new state. A pointer into an array is an index;
-- where a save fails the entries that were overwritten are put back.
use zectrix_note4_platform.Base.{
  Bool, List, Option, [], add32, get_or, if◌then◌else◌, ltb, none, not, set, some, true, ℕ, ◌&&◌,
  ◌+◌, ◌==◌, ◌||◌, ◌∷◌,
}
use zectrix_note4_platform.Sync.Table.{find, index_of}
use zectrix_note4_platform.Sync.State.{
  not_found, input_size, by_request, content, result_capacity, invalid_argument, is_dangling,
  not_initialized, blank_command, Input, SyncStatus, CommandEntry, Engine, same_bytes, ok,
  value_too_large, revision_conflict, duplicate,
}
use zectrix_note4_platform.Sync.Persist.{keep_or, Saved, persist}

-- `slot = &commands_[0]`, and then the first of the least stamps: the scan from index `i` on, with
-- the best index and stamp so far.
unfoldable pub oldest_from : ℕ → ℕ → ℕ → List CommandEntry → ℕ
oldest_from best stamp i [] = best
oldest_from best stamp i (x ∷ xs) =
    oldest_from (if ltb x.stamp stamp then i else best)
      (if ltb x.stamp stamp then x.stamp else stamp) (i + 1) xs

unfoldable pub oldest : List CommandEntry → ℕ
unfolding oldest_from
oldest xs = oldest_from 0 (get_or xs 0 blank_command).stamp 0 xs

-- `next_command_stamp_++`, which skips 0 when it wraps.
unfoldable pub next_stamp : ℕ → ℕ
next_stamp n = if add32 n 1 == 0 then 1 else add32 n 1

unfoldable pub record_at : (List ℕ → Bool) → Engine → ℕ → ℕ → Input → ℕ → Saved
unfolding next_stamp
record_at save e request_id result payload i =
    let previous = get_or e.commands i blank_command in
    keep_or
      (λ e'. record e' {
        commands = set e'.commands i previous;
        next_command_stamp = e.next_command_stamp;
      })
      (persist save (record e {
        commands = set e.commands i (record {
          request_id = request_id;
          stamp = e.next_command_stamp;
          result = result;
          payload = content payload;
          valid = true;
        });
        next_command_stamp = next_stamp e.next_command_stamp;
      }))

unfoldable pub record_command_result : (List ℕ → Bool) → Engine → ℕ → ℕ → Input → Saved
record_command_result save e request_id result payload =
    if not e.has_store
    then (not_initialized, e)
    else if request_id == 0 || is_dangling payload
    then (invalid_argument, e)
    else if ltb result_capacity (input_size payload)
    then (value_too_large, e)
    else elim (find by_request request_id e.commands) [
      | some x ↦ (
        if x.result == result && same_bytes x.payload (content payload)
            then duplicate
            else revision_conflict,
        e,
      )
      | none ↦ elim (index_of (λ (x : CommandEntry). not x.valid) e.commands) [
        | some i ↦ record_at save e request_id result payload i
        | none ↦ record_at save e request_id result payload (oldest e.commands)
      ]
    ]

unfoldable pub find_command_result : Engine → ℕ → SyncStatus × Option CommandEntry
find_command_result e request_id =
    if not e.has_store
    then (not_initialized, none)
    else if request_id == 0
    then (invalid_argument, none)
    else elim (find by_request request_id e.commands) [
      | none ↦ (not_found, none)
      | some x ↦ (ok, some x)
    ]
