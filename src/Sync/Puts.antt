-- ===== src/Sync/Puts.antt =====
-- `PutDurableState` keeps the invariant; on success it changes what is pending for its key alone,
-- and otherwise nothing.
use zectrix_note4_platform.Base.{
  All-set, Bool, Bool-cases, List, Option-cases, arith, false, get_or, if◌then◌else◌, inl, inr,
  length, length-set, ltb, not, refl, set, set-set_restore, some, true, ℕ, ◌<◌, ◌==◌, ◌||◌, ◌∙◌,
  ◌≡◌, ◌≤◌,
}
use zectrix_note4_platform.Sync.Table.{
  find, At, holds, find-set, Unique-set, At-value, At-All, index_of, slot, index-At, free-At,
  slot-At,
}
use zectrix_note4_platform.Sync.State.{
  Engine, value_capacity, DurableEntry, CursorEntry, blank_cursor, durable, by_cursor, Input,
  content, blank_entry, input_size, is_dangling, null, bytes, outbox_full,
}
use zectrix_note4_platform.Sync.Outgoing.{
  put_at, is_acknowledged, put_reserved, put_over, put_durable_state, put_placed,
}
use zectrix_note4_platform.Sync.Invariant.{
  IsSound, acked_of, applied_of, pending, acked, applied, IsClean, bumped, IsEntry, Ends,
  keep_or-Ends,
}

abbrev pub posted : ℕ → ℕ → Input → DurableEntry
posted key revision value = record {
  key = key;
  revision = revision;
  value = content value;
  valid = true;
}

pub record Puts (e : Engine) (key revision : ℕ) (value : Input) (e' : Engine) : Type 0 where
  pub sound : IsSound e'
  pub posts :
      (k : ℕ) → pending e' k ≡ (if key == k then some (posted key revision value) else pending e k)
  pub acks : (k : ℕ) → acked e' k ≡ acked e k
  pub applies : (k : ℕ) → applied e' k ≡ applied e k
  pub inbox : e'.inbox ≡ e.inbox
  pub commands : e'.commands ≡ e.commands

module _ (e : Engine) (key revision : ℕ) (value : Input) (i c : ℕ) (v : IsSound e)
    (at_entry : At durable key e.outbox i) (at_cursor : At by_cursor key e.cursors c)
    (key_pos : 0 < key) (fits : length (content value) ≤ value_capacity)
    (fresh : acked e key < revision) where
  cursor : CursorEntry
  cursor = record (get_or e.cursors c blank_cursor) { key = key; valid = true }

  changed : Engine
  unfolding cursor
  changed = record e {
    cursors = set e.cursors c cursor;
    outbox = set e.outbox i (posted key revision value);
  }

  cursor_counts :
      (acked_of (some cursor) ≡ acked e key) × (applied_of (some cursor) ≡ applied e key)
  unfolding cursor
  cursor_counts = ground (
    arith,
    At-value by_cursor key blank_cursor e.cursors c at_cursor,
    At-All by_cursor IsClean key blank_cursor e.cursors c at_cursor v.clean,
  )

  cursor-holds : holds by_cursor key cursor ≡ true
  unfolding cursor
  cursor-holds = ground arith

  cursors_found :
      (k : ℕ)
      → find by_cursor k changed.cursors
        ≡ (if key == k then some cursor else find by_cursor k e.cursors)
  unfolding changed
  cursors_found k = find-set by_cursor key k cursor e.cursors c at_cursor cursor-holds

  posts_found :
      (k : ℕ)
      → pending changed k ≡ (if key == k then some (posted key revision value) else pending e k)
  unfolding changed
  posts_found k =
      find-set durable key k (posted key revision value) e.outbox i at_entry (ground arith)

  counts : (k : ℕ) → (acked changed k ≡ acked e k) × (applied changed k ≡ applied e k)
  counts k = ground (arith, cursors_found k, cursor_counts)

  changed-IsSound : IsSound (bumped changed)
  unfolding changed
  changed-IsSound = record {
    outbox_size = length-set e.outbox i (posted key revision value) ∙ v.outbox_size;
    inbox_size = v.inbox_size;
    cursors_size = length-set e.cursors c cursor ∙ v.cursors_size;
    outbox_keys =
        Unique-set durable key (posted key revision value) e.outbox i at_entry (ground arith)
          v.outbox_keys;
    inbox_keys = v.inbox_keys;
    cursor_keys = Unique-set by_cursor key cursor e.cursors c at_cursor cursor-holds v.cursor_keys;
    outbox_entries =
        All-set IsEntry e.outbox i (posted key revision value) v.outbox_entries
          (λ _. (key_pos, omega (arith, fresh), fits));
    inbox_entries = v.inbox_entries;
    clean = All-set IsClean e.cursors c cursor v.clean (λ q. absurd (ground (arith, cursor-holds)));
    reserved = λ k x h. ground (arith, cursors_found k, posts_found k, v.reserved k x, h);
    ahead = λ k x h. ground (arith, counts k, posts_found k, v.ahead k x, h);
    current = λ k x h. ground (arith, counts k, v.current k x, h);
  }

  changed-Puts : Puts e key revision value (bumped changed)
  unfolding changed
  changed-Puts = record {
    sound = changed-IsSound;
    posts = posts_found;
    acks = λ k. (counts k).0;
    applies = λ k. (counts k).1;
    inbox = refl;
    commands = refl;
  }

  put_at-Ends :
      (save : List ℕ → Bool)
      → Ends (Puts e key revision value) e (put_at save e key revision value i c)
  unfolding put_at changed cursor
  put_at-Ends save =
      keep_or-Ends (Puts e key revision value) save e changed
        (λ e'. record e' {
          outbox = set e'.outbox i (get_or e.outbox i blank_entry);
          cursors = set e'.cursors c (get_or e.cursors c blank_cursor);
        })
        (ground (
          arith,
          set-set_restore e.outbox i (posted key revision value) blank_entry,
          set-set_restore e.cursors c cursor blank_cursor,
        ))
        changed-Puts

pub content_fits :
    (value : Input)
    → is_dangling value ≡ false
    → ltb value_capacity (input_size value) ≡ false
    → length (content value) ≤ value_capacity
content_fits (null n) d s = omega arith
content_fits (bytes bs) d s = ground arith

module _ (save : List ℕ → Bool) (e : Engine) (key revision : ℕ) (value : Input)
    (v : IsSound e) where
  put_reserved-Ends :
      (i : ℕ)
      → At durable key e.outbox i
      → 0 < key
      → length (content value) ≤ value_capacity
      → acked e key < revision
      → Ends (Puts e key revision value) e (put_reserved save e key revision value i)
  unfolding put_reserved
  put_reserved-Ends i at_entry key_pos fits fresh =
      elim (Option-cases (slot by_cursor key e.cursors)) [
        | inl full ↦
            let refused : put_reserved save e key revision value i ≡ (outbox_full, e) =
              ground arith in
            rw refused (inr (refl, refl))
        | inr (c, found) ↦
            let placed : put_reserved save e key revision value i
                ≡ put_at save e key revision value i c =
              ground arith in
            rw placed (
              put_at-Ends e key revision value i c v at_entry
                (slot-At by_cursor key e.cursors c found) key_pos fits fresh save)
      ]

  put_over-Ends :
      (i : ℕ)
      → At durable key e.outbox i
      → 0 < key
      → length (content value) ≤ value_capacity
      → acked e key < revision
      → Ends (Puts e key revision value) e (put_over save e key revision value i)
  unfolding put_over
  put_over-Ends i at_entry key_pos fits fresh =
      let old = get_or e.outbox i blank_entry in
      elim (Bool-cases (ltb revision old.revision)) [
        | inl stale ↦ rw stale (inr (refl, refl))
        | inr not_stale ↦ elim (Bool-cases (revision == old.revision)) [
          | inl same ↦ rw (not_stale, same) (inr (ground arith, refl))
          | inr newer ↦ rw (not_stale, newer) (put_reserved-Ends i at_entry key_pos fits fresh)
        ]
      ]

  put_placed-Ends :
      0 < key
      → length (content value) ≤ value_capacity
      → acked e key < revision
      → Ends (Puts e key revision value) e (put_placed save e key revision value)
  unfolding put_placed
  put_placed-Ends key_pos fits fresh = elim (Option-cases (index_of (holds durable key) e.outbox)) [
    | inr (i, found) ↦
        rw (found, put_placed)
          (put_over-Ends i (index-At durable key e.outbox i found) key_pos fits fresh)
    | inl absent ↦ elim (Option-cases (index_of (λ (x : DurableEntry). not x.valid) e.outbox)) [
      | inl full ↦ rw (absent, full, put_placed) (inr (refl, refl))
      | inr (i, found) ↦
          rw (absent, found, put_placed)
            (put_reserved-Ends i (free-At durable key e.outbox i absent found) key_pos fits fresh)
    ]
  ]

  -- Whatever the store answers, `PutDurableState` either returns `kOk`, and then the value is
  -- pending for its key with the rest of the pending values, both counters of every key, the inbox
  -- and the command results as they were; or it returns another status and the engine is
  -- unchanged. The invariant holds again in both cases.
  pub put_durable_state-Ends :
      Ends (Puts e key revision value) e (put_durable_state save e key revision value)
  unfolding put_durable_state
  put_durable_state-Ends = elim (Bool-cases (not e.has_store)) [
    | inl a ↦ rw a (inr (refl, refl))
    | inr a ↦ elim (Bool-cases (key == 0 || revision == 0 || is_dangling value)) [
      | inl b ↦ rw (a, b) (inr (refl, refl))
      | inr b ↦ elim (Bool-cases (ltb value_capacity (input_size value))) [
        | inl c ↦ rw (a, b, c) (inr (refl, refl))
        | inr c ↦ elim (Bool-cases (is_acknowledged revision (find by_cursor key e.cursors))) [
          | inl d ↦ rw (a, b, c, d) (inr (refl, refl))
          | inr d ↦
              rw (a, b, c, d)
                (put_placed-Ends (ground arith) (content_fits value (ground arith) c)
                  (ground arith))
        ]
      ]
    ]
  ]
