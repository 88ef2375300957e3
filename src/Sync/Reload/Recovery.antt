-- ===== src/Sync/Reload/Recovery.antt =====
-- What `Persist` hands to the store, `Initialize` reads back:
-- components/note4_companion/note4_sync_engine.cc.
use zectrix_note4_platform.Sync.Reload.Tables.{load_records-fuel}
use zectrix_note4_platform.Base.{
  All, All-both, All-map, Bool, List, Option-cases, add32, ap, arith, false, if◌then◌else◌, inl,
  inr, le32, length, refl, some, take-length_append, true, ℕ, ◌++◌, ◌+◌, ◌-◌, ◌==◌, ◌∙◌, ◌≡◌, ◌≤◌,
}
use zectrix_note4_platform.Crc.{crc32}
use zectrix_note4_platform.Sync.Table.{find}
use zectrix_note4_platform.Sync.State.{
  Engine, maximum_record_size, key_capacity, command_capacity, blank_entry, blank_cursor,
  blank_command, reset, durable, by_cursor, by_request, DurableEntry, ok, SyncStatus,
}
use zectrix_note4_platform.Sync.Persist.{
  store_header, finish_record, write_record, persist, write_body,
}
use zectrix_note4_platform.Sync.Load.{
  settle, load_state, with_store, initialize, found, Loading, reserve_keys, are_current,
}
use zectrix_note4_platform.Sync.Invariant.{IsSound, pending, received, bumped}
use zectrix_note4_platform.Sync.Reload.Compact.{kept, find-compact}
use zectrix_note4_platform.Sync.Reload.Records.{IsStored}
use zectrix_note4_platform.Sync.Reload.Written.{body_bytes, >>=-eq-some, write_body-bytes}
use zectrix_note4_platform.Sync.Reload.Settled.{
  reserve_keys-IsBehind, IsBehind, IsApplied, are_current-IsApplied, Unique-finds, All-compact,
}
use zectrix_note4_platform.Sync.Reload.Loaded.{
  IsStorable, padded, max_stamp, loaded, record_count, fresh, load_records-body,
}
use zectrix_note4_platform.Sync.Reload.Header.{
  record_bytes, finish_record-bytes, fields, is_record-whole,
}
use zectrix_note4_platform.Sync.Reload.Bytes.{body_bytes-bytes, record_count-le}

-- The engine after a restart.
abbrev restored : Engine → Engine
restored e = record {
  has_store = true;
  outbox = padded key_capacity blank_entry (kept durable e.outbox);
  inbox = padded key_capacity blank_entry (kept durable e.inbox);
  cursors = padded key_capacity blank_cursor (kept by_cursor e.cursors);
  commands = padded command_capacity blank_command (kept by_request e.commands);
  generation = add32 e.generation 1;
  next_command_stamp =
      if add32 (max_stamp (kept by_request e.commands)) 1 == 0
      then 1
      else add32 (max_stamp (kept by_request e.commands)) 1;
  recovered_from_corrupt = false;
}

settle_passes :
    (l : Loading)
    → reserve_keys l.engine.outbox l.engine.cursors ≡ some l.engine.cursors
    → are_current l.engine.inbox l.engine.cursors ≡ true
    → settle l
      ≡ some (record l.engine {
        next_command_stamp = if add32 l.maximum_stamp 1 == 0 then 1 else add32 l.maximum_stamp 1;
      })
unfolding settle
settle_passes l h k = rw (settle, h, k) refl

module _ (e : Engine) (sound : IsSound e) (s : IsStorable e) where
  -- The cursors stand where they stood.
  cursors_kept : (k : ℕ) → find by_cursor k (restored e).cursors ≡ find by_cursor k e.cursors
  cursors_kept k =
      find-compact by_cursor blank_cursor refl k (key_capacity - length (kept by_cursor e.cursors))
        e.cursors

  one-IsBehind : (x : DurableEntry) → pending e x.key ≡ some x → IsBehind (restored e).cursors x
  one-IsBehind x p = elim (Option-cases (find by_cursor x.key e.cursors)) [
    | inl gone ↦ absurd (rw gone at (sound.reserved x.key x p))
    | inr (c, there) ↦ (c, cursors_kept x.key ∙ there, rw there at (sound.ahead x.key x p))
  ]

  one-IsApplied :
      (x : DurableEntry) → received e x.key ≡ some x → IsStored x → IsApplied (restored e).cursors x
  one-IsApplied x p st = elim (Option-cases (find by_cursor x.key e.cursors)) [
    | inl gone ↦
        let zero_revision : 0 ≡ x.revision = rw gone at (sound.current x.key x p) in
        absurd (omega (arith, zero_revision, st.revision_set))
    | inr (c, there) ↦ (c, cursors_kept x.key ∙ there, rw there at (sound.current x.key x p))
  ]

  outbox-IsBehind : All (λ x. x.valid ≡ true → IsBehind (restored e).cursors x) (restored e).outbox
  outbox-IsBehind =
      All-compact durable (IsBehind (restored e).cursors) e.outbox blank_entry
        (key_capacity - length (kept durable e.outbox)) refl
        (All-map (λ x. x.valid ≡ true → pending e x.key ≡ some x)
          (λ x. x.valid ≡ true → IsBehind (restored e).cursors x) e.outbox
          (λ x f v. one-IsBehind x (f v)) (Unique-finds durable e.outbox sound.outbox_keys))

  inbox-IsApplied : All (λ x. x.valid ≡ true → IsApplied (restored e).cursors x) (restored e).inbox
  inbox-IsApplied =
      let is_found : DurableEntry → Type 0 = λ x. x.valid ≡ true → received e x.key ≡ some x in
      let is_stored : DurableEntry → Type 0 = λ x. x.valid ≡ true → IsStored x in
      All-compact durable (IsApplied (restored e).cursors) e.inbox blank_entry
        (key_capacity - length (kept durable e.inbox)) refl
        (All-map (λ x. is_found x × is_stored x)
          (λ x. x.valid ≡ true → IsApplied (restored e).cursors x) e.inbox
          (λ x f v. one-IsApplied x (f.0 v) (f.1 v))
          (All-both is_found is_stored e.inbox (Unique-finds durable e.inbox sound.inbox_keys)
            s.inbox_stored))

  settle-loaded : settle (loaded e (fresh (add32 e.generation 1))) ≡ some (restored e)
  unfolding reset
  settle-loaded =
      settle_passes (loaded e (fresh (add32 e.generation 1)))
        (reserve_keys-IsBehind (restored e).outbox (restored e).cursors outbox-IsBehind)
        (are_current-IsApplied (restored e).inbox (restored e).cursors inbox-IsApplied)

  load_state-record :
      length (body_bytes e) ≤ 65535
      → length (body_bytes e) + 20 ≤ maximum_record_size
      → load_state (record_bytes (add32 e.generation 1) (body_bytes e)) with_store
        ≡ some (restored e)
  unfolding load_state
  load_state-record n m =
      let g = add32 e.generation 1 in
      let body = body_bytes e in
      let bytes = body_bytes-bytes e s in
      let f = fields g body (omega arith) n m bytes in
      let good = is_record-whole g body (omega arith) n m bytes in
      let loop =
        load_records-fuel (record_count e) (length body) 2 body (fresh g) (loaded e (fresh g))
          (record_count-le e s) (load_records-body e sound s g) in
      let front = take-length_append body (le32 (crc32 (store_header g (length body) ++ body) 0)) in
      rw (good, f.3, f.4, f.6, f.1, front, loop) settle-loaded

-- What `Persist` did when it succeeded.
persist-ok :
    (save : List ℕ → Bool) (e e' : Engine)
    → persist save e ≡ (ok, e')
    → (r : List ℕ) × (write_record e ≡ some r) × (save r ≡ true) × (e' ≡ bumped e)
unfolding persist
persist-ok save e e' h = elim (Option-cases (write_record e)) [
  | inl no_room ↦ absurd (ground arith)
  | inr (r, w) ↦ (r, w, ground arith, ground arith)
]

written :
    (e : Engine) (r : List ℕ)
    → write_record e ≡ some r
    → (r ≡ record_bytes (add32 e.generation 1) (body_bytes e))
      × (length (body_bytes e) ≤ 65535)
      × (length (body_bytes e) + 20 ≤ maximum_record_size)
unfolding write_record
written e r h =
    let (out, wrote, finished) =
      >>=-eq-some (write_body e) (finish_record (add32 e.generation 1)) h in
    finish_record-bytes (add32 e.generation 1) (body_bytes e) r
      (rw (write_body-bytes e out wrote) at finished)

initialize-loads :
    (r : List ℕ) (e : Engine) → load_state r with_store ≡ some e → initialize (found r) ≡ (ok, e)
unfolding initialize
initialize-loads r e h = rw (initialize, h) refl

-- What a caller of the engine sees: what is found under each key and request, and the generation.
pub record SameView (e e' : Engine) : Type 0 where
  pub store : e'.has_store ≡ true
  pub clean : e'.recovered_from_corrupt ≡ false
  pub same_generation : e'.generation ≡ e.generation
  pub same_pending : (k : ℕ) → pending e' k ≡ pending e k
  pub same_received : (k : ℕ) → received e' k ≡ received e k
  pub same_cursor : (k : ℕ) → find by_cursor k e'.cursors ≡ find by_cursor k e.cursors
  pub same_result : (k : ℕ) → find by_request k e'.commands ≡ find by_request k e.commands

restored-SameView : (e : Engine) → SameView (bumped e) (restored e)
restored-SameView e = record {
  store = refl;
  clean = refl;
  same_generation = refl;
  same_pending = λ k.
      find-compact durable blank_entry refl k (key_capacity - length (kept durable e.outbox))
        e.outbox;
  same_received = λ k.
      find-compact durable blank_entry refl k (key_capacity - length (kept durable e.inbox))
        e.inbox;
  same_cursor = λ k.
      find-compact by_cursor blank_cursor refl k (key_capacity - length (kept by_cursor e.cursors))
        e.cursors;
  same_result = λ k.
      find-compact by_request blank_command refl k
        (command_capacity - length (kept by_request e.commands)) e.commands;
}

-- If a sound engine, whose fields fit their types, is saved, then the store was given a record, and
-- a restart that reads this record back succeeds: every key has the pending value, the received
-- value and the cursor, and every request the command result, that the engine had when it was
-- saved, and the generation is the one after the save.
pub persist-initialize :
    (save : List ℕ → Bool) (e e' : Engine)
    → IsSound e
    → IsStorable e
    → persist save e ≡ (ok, e')
    → (r : List ℕ) × (write_record e ≡ some r)
      × (save r ≡ true)
      × ((initialize (found r)).0 ≡ ok)
      × SameView e' (initialize (found r)).1
persist-initialize save e e' sound s h =
    let (r, w, saved, after) = persist-ok save e e' h in
    let (shape, n, m) = written e r w in
    let read : load_state r with_store ≡ some (restored e) =
      ap (λ (bs : List ℕ). load_state bs with_store) shape ∙ load_state-record e sound s n m in
    let back = initialize-loads r (restored e) read in
    (
      r,
      w,
      saved,
      ap (λ (x : SyncStatus × Engine). x.0) back,
      rw (back, after) (restored-SameView e),
    )
