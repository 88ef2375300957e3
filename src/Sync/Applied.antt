-- ===== src/Sync/Applied.antt =====
-- The cursor that `AcceptIncomingState` and `CommitIncomingState` write for a received revision:
-- components/note4_companion/note4_sync_engine.cc.
use zectrix_note4_platform.Base.{
  All, All-set, List, arith, get_or, if◌then◌else◌, length, length-set, set, some, true, ℕ, ◌==◌,
  ◌∙◌, ◌≡◌,
}
use zectrix_note4_platform.Sync.Table.{
  find, At, holds, find-set, At-value, At-All, Unique, Unique-set,
}
use zectrix_note4_platform.Sync.State.{Engine, CursorEntry, key_capacity, blank_cursor, by_cursor}
use zectrix_note4_platform.Sync.Invariant.{
  IsSound, acked, applied, acked_of, applied_of, IsReserved, IsClean,
}

abbrev pub cursor_for : Engine → ℕ → ℕ → ℕ → CursorEntry
cursor_for e key revision c = record (get_or e.cursors c blank_cursor) {
  key = key;
  valid = true;
  inbound_applied = revision;
}

unfoldable pub cursors_after : Engine → ℕ → ℕ → ℕ → List CursorEntry
cursors_after e key revision c = set e.cursors c (cursor_for e key revision c)

module _ (e : Engine) (key revision c : ℕ) (v : IsSound e)
    (at_cursor : At by_cursor key e.cursors c) where
  cursor : CursorEntry
  cursor = cursor_for e key revision c

  cursor-holds : holds by_cursor key cursor ≡ true
  unfolding cursor
  cursor-holds = ground arith

  prior_ack : acked_of (some cursor) ≡ acked e key
  unfolding cursor
  prior_ack = ground (
    arith,
    At-value by_cursor key blank_cursor e.cursors c at_cursor,
    At-All by_cursor IsClean key blank_cursor e.cursors c at_cursor v.clean,
  )

  found_after :
      (k : ℕ)
      → find by_cursor k (cursors_after e key revision c)
        ≡ (if key == k then some cursor else find by_cursor k e.cursors)
  unfolding cursors_after cursor
  found_after k = find-set by_cursor key k cursor e.cursors c at_cursor cursor-holds

  -- The applied revision of the key is the new one, and no other count changes.
  pub counts_after :
      (k : ℕ)
      → (acked_of (find by_cursor k (cursors_after e key revision c)) ≡ acked e k)
        × (applied_of (find by_cursor k (cursors_after e key revision c))
            ≡ (if key == k then revision else applied e k))
  unfolding cursor
  counts_after k = ground (arith, found_after k, prior_ack)

  pub cursors_after-IsReserved :
      (k : ℕ)
      → IsReserved (find by_cursor k e.cursors)
      → IsReserved (find by_cursor k (cursors_after e key revision c))
  cursors_after-IsReserved k h = ground (arith, found_after k)

  pub Unique-cursors_after : Unique by_cursor (cursors_after e key revision c)
  unfolding cursors_after cursor
  Unique-cursors_after =
      Unique-set by_cursor key cursor e.cursors c at_cursor cursor-holds v.cursor_keys

  pub cursors_after-IsClean : All IsClean (cursors_after e key revision c)
  unfolding cursors_after cursor
  cursors_after-IsClean = All-set IsClean e.cursors c cursor v.clean (λ q. absurd (cc))

  pub length-cursors_after : length (cursors_after e key revision c) ≡ key_capacity
  unfolding cursors_after
  length-cursors_after = length-set e.cursors c (cursor_for e key revision c) ∙ v.cursors_size
