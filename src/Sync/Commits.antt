-- ===== src/Sync/Commits.antt =====
-- `CommitIncomingState` moves the applied revision of a key up and drops the value received for it.
-- components/note4_companion/note4_sync_engine.cc.
use zectrix_note4_platform.Base.{
  All, All-set, Bool, Bool-cases, List, Option-cases, add32, arith, false, get_or, if◌then◌else◌,
  inl, inr, length, length-set, none, refl, set, set-set_restore, some, ℕ, ◌<◌, ◌==◌, ◌∙◌, ◌≡◌,
}
use zectrix_note4_platform.Sync.Table.{
  find, slot, At, holds, slot-At, find-clear, Unique-clear, last_index_of, index_of,
  index-find-none, last_index_of-Unique, Unique,
}
use zectrix_note4_platform.Sync.State.{
  Engine, DurableEntry, blank_cursor, durable, by_cursor, blank_entry,
}
use zectrix_note4_platform.Sync.Incoming.{
  commit_at, commit_incoming_state, requires_apply, inspect_incoming_state,
}
use zectrix_note4_platform.Sync.Applied.{
  cursors_after, cursor_for, counts_after, cursors_after-IsReserved, Unique-cursors_after,
  cursors_after-IsClean, length-cursors_after,
}
use zectrix_note4_platform.Sync.Accepts.{inspect_open, inspect_not_ok}
use zectrix_note4_platform.Sync.Invariant.{
  IsSound, Ends, keep_or-Ends, received, acked, applied, IsEntry, bumped,
}

pub record Commits (e : Engine) (key revision : ℕ) (e' : Engine) : Type 0 where
  pub sound : IsSound e'
  pub advances : applied e key < revision
  pub drops : (k : ℕ) → received e' k ≡ (if key == k then none else received e k)
  pub applies : (k : ℕ) → applied e' k ≡ (if key == k then revision else applied e k)
  pub acks : (k : ℕ) → acked e' k ≡ acked e k
  pub counted : e'.generation ≡ add32 e.generation 1
  pub rest : record e' { inbox = e.inbox; cursors = e.cursors; generation = e.generation } ≡ e

module _ (e : Engine) (key revision c : ℕ) (v : IsSound e)
    (at_cursor : At by_cursor key e.cursors c) (fresh : applied e key < revision)
    (inbox' : List DurableEntry) (same_size : length inbox' ≡ length e.inbox)
    (keys : Unique durable inbox') (entries : All IsEntry inbox')
    (dropped : (k : ℕ) → find durable k inbox' ≡ (if key == k then none else received e k)) where
  changed : Engine
  changed = record e { inbox = inbox'; cursors = cursors_after e key revision c }

  counts :
      (k : ℕ)
      → (acked changed k ≡ acked e k)
        × (applied changed k ≡ (if key == k then revision else applied e k))
  unfolding changed
  counts = counts_after e key revision c v at_cursor

  changed-IsSound : IsSound (bumped changed)
  unfolding changed
  changed-IsSound = record {
    outbox_size = v.outbox_size;
    inbox_size = same_size ∙ v.inbox_size;
    cursors_size = length-cursors_after e key revision c v at_cursor;
    outbox_keys = v.outbox_keys;
    inbox_keys = keys;
    cursor_keys = Unique-cursors_after e key revision c v at_cursor;
    outbox_entries = v.outbox_entries;
    inbox_entries = entries;
    clean = cursors_after-IsClean e key revision c v at_cursor;
    reserved = λ k x h. cursors_after-IsReserved e key revision c v at_cursor k (v.reserved k x h);
    ahead = λ k x h. ground (arith, counts k, v.ahead k x, h);
    current = λ k x h. ground (arith, counts k, dropped k, v.current k x, h);
  }

  changed-Commits : Commits e key revision (bumped changed)
  unfolding changed
  changed-Commits = record {
    sound = changed-IsSound;
    advances = fresh;
    drops = dropped;
    applies = λ k. (counts k).1;
    acks = λ k. (counts k).0;
    counted = refl;
    rest = refl;
  }

module _ (save : List ℕ → Bool) (e : Engine) (key revision c : ℕ) (v : IsSound e)
    (at_cursor : At by_cursor key e.cursors c) (fresh : applied e key < revision) where
  commit_absent-Ends :
      index_of (holds durable key) e.inbox ≡ none
      → Ends (Commits e key revision) e (commit_at save e key revision c none)
  unfolding commit_at changed cursors_after
  commit_absent-Ends absent =
      let absent_for : (k : ℕ) → received e k ≡ (if key == k then none else received e k) =
        λ k. ground (arith, index-find-none durable key e.inbox absent) in
      keep_or-Ends (Commits e key revision) save e
        (changed e key revision c v at_cursor fresh e.inbox refl v.inbox_keys v.inbox_entries
          absent_for)
        (λ e'. record e' { cursors = set e'.cursors c (get_or e.cursors c blank_cursor) })
        (ground (arith, set-set_restore e.cursors c (cursor_for e key revision c) blank_cursor))
        (changed-Commits e key revision c v at_cursor fresh e.inbox refl v.inbox_keys
          v.inbox_entries absent_for)

  commit_found-Ends :
      (i : ℕ)
      → index_of (holds durable key) e.inbox ≡ some i
      → Ends (Commits e key revision) e (commit_at save e key revision c (some i))
  unfolding commit_at changed cursors_after
  commit_found-Ends i found =
      let old : DurableEntry = get_or e.inbox i blank_entry in
      let gone : DurableEntry = record old { valid = false } in
      let size = length-set e.inbox i gone in
      let keys = Unique-clear durable key gone e.inbox i found refl v.inbox_keys in
      let entries = All-set IsEntry e.inbox i gone v.inbox_entries (λ q. absurd (cc)) in
      let cleared = λ (k : ℕ). find-clear durable key k gone e.inbox i found refl v.inbox_keys in
      keep_or-Ends (Commits e key revision) save e
        (changed e key revision c v at_cursor fresh (set e.inbox i gone) size keys entries cleared)
        (λ e'. record e' {
          inbox = set e'.inbox i old;
          cursors = set e'.cursors c (get_or e.cursors c blank_cursor);
        })
        (ground (
          arith,
          set-set_restore e.inbox i gone blank_entry,
          set-set_restore e.cursors c (cursor_for e key revision c) blank_cursor,
        ))
        (changed-Commits e key revision c v at_cursor fresh (set e.inbox i gone) size keys entries
          cleared)

  commit_at-Ends :
      Ends
        (Commits e key revision)
        e
        (commit_at save e key revision c (last_index_of (holds durable key) e.inbox))
  commit_at-Ends =
      let scan = last_index_of-Unique durable key e.inbox v.inbox_keys in
      elim (Option-cases (index_of (holds durable key) e.inbox)) [
        | inl absent ↦ rw (scan, absent) (commit_absent-Ends absent)
        | inr (i, found) ↦ rw (scan, found) (commit_found-Ends i found)
      ]

-- On a sound engine, whatever the store answers, `CommitIncomingState` either returns `kOk`, and
-- then the revision is above the one applied before, the key's applied revision is `revision`, no
-- value is received for the key any longer, and nothing is otherwise seen to change but the
-- generation; or it returns another status and the engine is unchanged.
pub commit_incoming_state-Ends :
    (save : List ℕ → Bool) (e : Engine) (key revision : ℕ)
    → IsSound e
    → Ends (Commits e key revision) e (commit_incoming_state save e key revision)
unfolding commit_incoming_state
commit_incoming_state-Ends save e key revision v =
    elim (Bool-cases (requires_apply (inspect_incoming_state e key revision))) [
      | inr refused ↦ rw refused (inr (inspect_not_ok e key revision, refl))
      | inl open_now ↦
          let (key_pos, fresh) = inspect_open e key revision open_now in
          elim (Option-cases (slot by_cursor key e.cursors)) [
            | inl full ↦ rw (open_now, full, commit_incoming_state) (inr (refl, refl))
            | inr (c, there) ↦
                rw (open_now, there, commit_incoming_state)
                  (commit_at-Ends save e key revision c v (slot-At by_cursor key e.cursors c there)
                    fresh)
          ]
    ]
