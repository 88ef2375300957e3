-- ===== src/Sync/Accepts.antt =====
-- `AcceptIncomingState` stores a value and its cursor together, once for each revision.
use zectrix_note4_platform.Base.{
  All-set, Bool, Bool-cases, List, Option-cases, add32, arith, false, get_or, if◌then◌else◌, inl,
  inr, length, length-set, ltb, refl, set, set-set_restore, some, true, ℕ, ◌<◌, ◌==◌, ◌∙◌, ◌≡◌, ◌≤◌,
}
use zectrix_note4_platform.Sync.Table.{slot, At, slot-At, find-set, Unique-set}
use zectrix_note4_platform.Sync.State.{
  Engine, value_capacity, blank_entry, blank_cursor, durable, by_cursor, Input, input_size,
  is_dangling, content, outbox_full, revision_conflict,
}
use zectrix_note4_platform.Sync.Persist.{is_ok}
use zectrix_note4_platform.Sync.Incoming.{
  accept_at, inspect_incoming_state, accept_incoming_state, requires_apply, is_conflicting,
  is_duplicate, slot_entry,
}
use zectrix_note4_platform.Sync.Invariant.{
  IsSound, received, acked, applied, IsEntry, bumped, Ends, keep_or-Ends,
}
use zectrix_note4_platform.Sync.Applied.{
  cursors_after, cursor_for, counts_after, cursors_after-IsReserved, Unique-cursors_after,
  cursors_after-IsClean, length-cursors_after,
}
use zectrix_note4_platform.Sync.Puts.{posted, content_fits}

pub record Accepts (e : Engine) (key revision : ℕ) (value : Input) (e' : Engine) : Type 0 where
  pub sound : IsSound e'
  pub advances : applied e key < revision
  pub receives :
      (k : ℕ)
      → received e' k ≡ (if key == k then some (posted key revision value) else received e k)
  pub applies : (k : ℕ) → applied e' k ≡ (if key == k then revision else applied e k)
  pub acks : (k : ℕ) → acked e' k ≡ acked e k
  pub outbox : e'.outbox ≡ e.outbox
  pub commands : e'.commands ≡ e.commands
  pub counted : e'.generation ≡ add32 e.generation 1
  pub rest : record e' { inbox = e.inbox; cursors = e.cursors; generation = e.generation } ≡ e

module _ (e : Engine) (key revision : ℕ) (value : Input) (i c : ℕ) (v : IsSound e)
    (at_entry : At durable key e.inbox i) (at_cursor : At by_cursor key e.cursors c)
    (key_pos : 0 < key) (fits : length (content value) ≤ value_capacity)
    (fresh : applied e key < revision) where
  changed : Engine
  changed = record e {
    inbox = set e.inbox i (posted key revision value);
    cursors = cursors_after e key revision c;
  }

  counts :
      (k : ℕ)
      → (acked changed k ≡ acked e k)
        × (applied changed k ≡ (if key == k then revision else applied e k))
  unfolding changed
  counts = counts_after e key revision c v at_cursor

  received_found :
      (k : ℕ)
      → received changed k ≡ (if key == k then some (posted key revision value) else received e k)
  unfolding changed
  received_found k =
      find-set durable key k (posted key revision value) e.inbox i at_entry (ground arith)

  changed-IsSound : IsSound (bumped changed)
  unfolding changed
  changed-IsSound = record {
    outbox_size = v.outbox_size;
    inbox_size = length-set e.inbox i (posted key revision value) ∙ v.inbox_size;
    cursors_size = length-cursors_after e key revision c v at_cursor;
    outbox_keys = v.outbox_keys;
    inbox_keys =
        Unique-set durable key (posted key revision value) e.inbox i at_entry (ground arith)
          v.inbox_keys;
    cursor_keys = Unique-cursors_after e key revision c v at_cursor;
    outbox_entries = v.outbox_entries;
    inbox_entries =
        All-set IsEntry e.inbox i (posted key revision value) v.inbox_entries
          (λ _. (key_pos, omega (arith, fresh), fits));
    clean = cursors_after-IsClean e key revision c v at_cursor;
    reserved = λ k x h. cursors_after-IsReserved e key revision c v at_cursor k (v.reserved k x h);
    ahead = λ k x h. ground (arith, counts k, v.ahead k x, h);
    current = λ k x h. ground (arith, counts k, received_found k, v.current k x, h);
  }

  changed-Accepts : Accepts e key revision value (bumped changed)
  unfolding changed
  changed-Accepts = record {
    sound = changed-IsSound;
    advances = fresh;
    receives = received_found;
    applies = λ k. (counts k).1;
    acks = λ k. (counts k).0;
    outbox = refl;
    commands = refl;
    counted = refl;
    rest = refl;
  }

  accept_at-Ends :
      (save : List ℕ → Bool)
      → Ends (Accepts e key revision value) e (accept_at save e key revision value i c)
  unfolding accept_at changed cursors_after
  accept_at-Ends save =
      keep_or-Ends (Accepts e key revision value) save e changed
        (λ e'. record e' {
          inbox = set e'.inbox i (get_or e.inbox i blank_entry);
          cursors = set e'.cursors c (get_or e.cursors c blank_cursor);
        })
        (ground (
          arith,
          set-set_restore e.inbox i (posted key revision value) blank_entry,
          set-set_restore e.cursors c (cursor_for e key revision c) blank_cursor,
        ))
        changed-Accepts

-- What `InspectIncomingState` says.
pub inspect_open :
    (e : Engine) (key revision : ℕ)
    → requires_apply (inspect_incoming_state e key revision) ≡ true
    → (0 < key) × (applied e key < revision)
unfolding inspect_incoming_state
inspect_open e key revision h = ground arith

pub inspect_not_ok :
    (e : Engine) (key revision : ℕ) → is_ok (inspect_incoming_state e key revision) ≡ false
unfolding inspect_incoming_state
inspect_not_ok e key revision = ground arith

module _ (save : List ℕ → Bool) (e : Engine) (key revision : ℕ) (value : Input)
    (v : IsSound e) where
  -- On a sound engine, whatever the store answers, `AcceptIncomingState` either returns `kOk`, and
  -- then the revision is above the one applied before, the value is received for its key, the key's
  -- applied revision is `revision`, what is received and applied of the other keys and every
  -- acknowledged revision stay, the generation rises by one, and all members but the inbox, the
  -- cursors and the generation stay as they are; or it returns another status and the engine is
  -- unchanged. The invariant holds again in both cases.
  pub accept_incoming_state-Ends :
      Ends (Accepts e key revision value) e (accept_incoming_state save e key revision value)
  unfolding accept_incoming_state
  accept_incoming_state-Ends = elim (Bool-cases (ltb value_capacity (input_size value))) [
    | inl a ↦ rw a (inr (refl, refl))
    | inr a ↦ elim (Bool-cases (is_dangling value)) [
      | inl b ↦ rw (a, b) (inr (refl, refl))
      | inr b ↦ elim (Bool-cases (is_duplicate (inspect_incoming_state e key revision))) [
        | inl d ↦
            elim (Bool-cases
              (is_conflicting revision value (slot_entry e.inbox (slot durable key e.inbox)))) [
                | inl clash ↦
                    let refused : accept_incoming_state save e key revision value
                        ≡ (revision_conflict, e) =
                      ground arith in
                    rw refused (inr (refl, refl))
                | inr same ↦
                    let refused : accept_incoming_state save e key revision value
                        ≡ (inspect_incoming_state e key revision, e) =
                      ground arith in
                    rw refused (inr (inspect_not_ok e key revision, refl))
              ]
        | inr d ↦ elim (Bool-cases (requires_apply (inspect_incoming_state e key revision))) [
          | inr r ↦
              let refused : accept_incoming_state save e key revision value
                  ≡ (inspect_incoming_state e key revision, e) =
                ground arith in
              rw refused (inr (inspect_not_ok e key revision, refl))
          | inl r ↦ elim (Option-cases (slot durable key e.inbox)) [
            | inl full ↦
                let refused : accept_incoming_state save e key revision value ≡ (outbox_full, e) =
                  ground arith in
                rw refused (inr (refl, refl))
            | inr (i, at_i) ↦ elim (Option-cases (slot by_cursor key e.cursors)) [
              | inl full ↦
                  let refused : accept_incoming_state save e key revision value ≡ (outbox_full, e) =
                    ground arith in
                  rw refused (inr (refl, refl))
              | inr (c, at_c) ↦
                  let placed : accept_incoming_state save e key revision value
                      ≡ accept_at save e key revision value i c =
                    ground arith in
                  rw placed (
                    accept_at-Ends e key revision value i c v (slot-At durable key e.inbox i at_i)
                      (slot-At by_cursor key e.cursors c at_c) (inspect_open e key revision r).0
                      (content_fits value b a) (inspect_open e key revision r).1 save)
            ]
          ]
        ]
      ]
    ]
  ]
