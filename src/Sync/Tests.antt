-- ===== src/Sync/Tests.antt =====
-- Runs of the sync engine: calls on the empty engine with a store that takes every record.
use zectrix_note4_platform.Base.{
  All, Bool, List, [], arith, false, refl, replicate, some, subst, suc, true, zero, ℕ, ◌∷◌, ◌≡◌,
}
use zectrix_note4_platform.Sync.State.{
  Engine, Input, ok, bytes, reset, blank_entry, blank_cursor, blank_command, durable, by_cursor,
  by_request, SyncStatus,
}
use zectrix_note4_platform.Sync.Incoming.{accept_incoming_state, inspect_incoming_state, accept_at}
use zectrix_note4_platform.Sync.Outgoing.{
  put_durable_state, acknowledge_durable_state, put_at, put_reserved, put_over, put_placed,
}
use zectrix_note4_platform.Sync.Persist.{
  add_record, entry_content, cursor_content, command_content, add_records, write_body,
  finish_record, write_record, persist, is_ok,
}
use zectrix_note4_platform.Sync.Table.{find, index_of, slot, Keyed, Unique}
use zectrix_note4_platform.Sync.Invariant.{Ends, IsSound, bumped}
use zectrix_note4_platform.Sync.Puts.{Puts, put_durable_state-Ends}
use zectrix_note4_platform.Sync.Acknowledges.{Acknowledges, acknowledge_durable_state-Ends}
use zectrix_note4_platform.Sync.Accepts.{Accepts, accept_incoming_state-Ends}
use zectrix_note4_platform.Sync.Cursors.{SyncCursor, reconcile_peer_cursors}
use zectrix_note4_platform.Sync.Reconciles.Outcome.{CaughtUp, reconcile_peer_cursors-Ends}
use zectrix_note4_platform.Sync.Load.{initialize, found}
use zectrix_note4_platform.Sync.Reload.Records.{IsStored, IsCursor, IsCommand}
use zectrix_note4_platform.Sync.Reload.Loaded.{IsStorable}
use zectrix_note4_platform.Sync.Reload.Recovery.{SameView, persist-initialize}
use zectrix_note4_platform.Sync.History.{
  Call, opened, run, Follows, run-Follows, opened-IsSound, puts, accepts, call, accept-run-accept,
  acknowledges, commits, reconciles, records,
}

abbrev takes_all : List ℕ → Bool
takes_all record_bytes = true

abbrev note : Input
note = bytes (104 ∷ 105 ∷ [])

abbrev placed : Engine
placed = (put_durable_state takes_all opened 3 7 note).1

placed-IsSound : IsSound placed
unfolding run call
placed-IsSound = (run-Follows opened (puts takes_all 3 7 note ∷ []) opened-IsSound).sound

put_durable_state-Ends_example :
    Ends (Puts opened 3 7 note) opened (put_durable_state takes_all opened 3 7 note)
put_durable_state-Ends_example = put_durable_state-Ends takes_all opened 3 7 note opened-IsSound

acknowledge_durable_state-Ends_example :
    Ends (Acknowledges placed 3 7) placed (acknowledge_durable_state takes_all placed 3 7)
acknowledge_durable_state-Ends_example =
    acknowledge_durable_state-Ends takes_all placed 3 7 placed-IsSound

accept_incoming_state-Ends_example :
    Ends (Accepts opened 3 7 note) opened (accept_incoming_state takes_all opened 3 7 note)
accept_incoming_state-Ends_example =
    accept_incoming_state-Ends takes_all opened 3 7 note opened-IsSound

abbrev busy_day : List Call
busy_day =
    puts takes_all 3 7 note
    ∷ accepts takes_all 4 2 note
    ∷ commits takes_all 4 5
    ∷ reconciles takes_all []
    ∷ records takes_all 12 0 note
    ∷ acknowledges takes_all 3 7
    ∷ []

run-Follows_example : Follows opened (run opened busy_day)
run-Follows_example = run-Follows opened busy_day opened-IsSound

accepted : (accept_incoming_state takes_all opened 3 7 note).0 ≡ ok
unfolding accept_incoming_state inspect_incoming_state accept_at persist write_record write_body
    add_records add_record entry_content cursor_content command_content finish_record opened reset
    find slot index_of
accepted = refl

accept-run-accept_example :
    let e' = run (accept_incoming_state takes_all opened 3 7 note).1 busy_day in
    (is_ok (accept_incoming_state takes_all e' 3 6 note).0 ≡ false)
    × ((accept_incoming_state takes_all e' 3 6 note).1 ≡ e')
accept-run-accept_example =
    accept-run-accept opened 3 7 6 note note takes_all takes_all busy_day opened-IsSound accepted
      (omega arith)

-- The engine `placed`, written out.
abbrev small_engine : Engine
small_engine = record {
  has_store = true;
  outbox =
      record { key = 3; revision = 7; value = 104 ∷ 105 ∷ []; valid = true }
      ∷ replicate 7 blank_entry;
  inbox = replicate 8 blank_entry;
  cursors =
      record { key = 3; outbound_acknowledged = 0; inbound_applied = 0; valid = true }
      ∷ replicate 7 blank_cursor;
  commands = replicate 16 blank_command;
  generation = 1;
  next_command_stamp = 1;
  recovered_from_corrupt = false;
}

small_engine-placed : placed ≡ small_engine
unfolding put_durable_state put_placed put_over put_reserved put_at persist write_record write_body
    add_records add_record entry_content cursor_content command_content finish_record opened reset
    find slot index_of
small_engine-placed = refl

small_engine-IsSound : IsSound small_engine
small_engine-IsSound = subst IsSound small_engine-placed placed-IsSound

free_slots :
    {A : Type 0} (t : Keyed A) (P : A → Type 0) (blank : A) (n : ℕ)
    → t.valid blank ≡ false
    → All (λ x. t.valid x ≡ true → P x) (replicate n blank)
free_slots t P blank zero h = tt
free_slots t P blank (suc n) h = ((λ v. absurd (cc)), free_slots t P blank n h)

small_engine-IsStorable : IsStorable small_engine
unfolding find
small_engine-IsStorable = record {
  outbox_stored = (
    λ _. record {
      key_word = omega arith;
      key_set = omega arith;
      revision_word = omega arith;
      revision_set = omega arith;
      value_size = omega arith;
      value_bytes = omega arith;
    },
    free_slots durable IsStored blank_entry 7 refl,
  );
  inbox_stored = free_slots durable IsStored blank_entry 8 refl;
  cursors_stored = (
    λ _. record {
      key_word = omega arith;
      key_set = omega arith;
      acknowledged_word = omega arith;
      applied_word = omega arith;
    },
    free_slots by_cursor IsCursor blank_cursor 7 refl,
  );
  commands_stored = free_slots by_request IsCommand blank_command 16 refl;
  commands_size = refl;
  command_keys = no_keys 16;
  generation_word = omega arith;
}
  where
    no_keys : (n : ℕ) → Unique by_request (replicate n blank_command)
    no_keys zero = tt
    no_keys (suc n) = ((λ v. absurd (cc)), no_keys n)

small_engine-saved : persist takes_all small_engine ≡ (ok, bumped small_engine)
unfolding persist write_record write_body add_records add_record entry_content cursor_content
    command_content finish_record
small_engine-saved = refl

persist-initialize_example :
    (r : List ℕ) × (write_record small_engine ≡ some r)
    × (takes_all r ≡ true)
    × ((initialize (found r)).0 ≡ ok)
    × SameView (bumped small_engine) (initialize (found r)).1
persist-initialize_example =
    persist-initialize takes_all small_engine (bumped small_engine) small_engine-IsSound
      small_engine-IsStorable small_engine-saved

abbrev peer_applied : List SyncCursor
peer_applied =
    record { key = 3; outbound_acknowledged = 0; inbound_applied = 7; pending_revision = 0 }
    ∷ record { key = 9; outbound_acknowledged = 0; inbound_applied = 0; pending_revision = 4 }
    ∷ []

reconcile_peer_cursors-Ends_example :
    (r : SyncStatus × Engine) × (reconcile_peer_cursors takes_all peer_applied small_engine
      ≡ some r)
    × Ends (CaughtUp small_engine peer_applied) small_engine r
reconcile_peer_cursors-Ends_example =
    reconcile_peer_cursors-Ends takes_all peer_applied small_engine small_engine-IsSound
