-- ===== src/Sync/History.antt =====
-- Histories of calls between two initialisations of the engine of
-- components/note4_companion/note4_sync_engine.cc, with any answers of the store.
use zectrix_note4_platform.Base.{
  All, Bool, List, Option, [], ap, arith, false, inl, inr, length, none, refl, replicate, some, suc,
  true, zero, ℕ, ◌∙◌, ◌∷◌, ◌≡◌, ◌≤◌,
}
use zectrix_note4_platform.Sync.Table.{find, Keyed, Unique}
use zectrix_note4_platform.Sync.State.{
  Engine, reset, Input, ok, blank_entry, blank_cursor, durable, by_cursor, store_error,
}
use zectrix_note4_platform.Sync.Persist.{Saved, is_ok}
use zectrix_note4_platform.Sync.Incoming.{accept_incoming_state, commit_incoming_state}
use zectrix_note4_platform.Sync.Outgoing.{put_durable_state, acknowledge_durable_state}
use zectrix_note4_platform.Sync.Invariant.{IsEntry, IsClean, IsSound, acked, applied, Ends}
use zectrix_note4_platform.Sync.Commits.{Commits, commit_incoming_state-Ends}
use zectrix_note4_platform.Sync.Results.{Records, record_command_result-Ends}
use zectrix_note4_platform.Sync.Commands.{record_command_result}
use zectrix_note4_platform.Sync.Cursors.{SyncCursor, reconcile_peer_cursors}
use zectrix_note4_platform.Sync.Reconciles.Outcome.{CaughtUp, reconcile_peer_cursors-Ends}
use zectrix_note4_platform.Sync.Puts.{Puts, put_durable_state-Ends}
use zectrix_note4_platform.Sync.Acknowledges.{Acknowledges, acknowledge_durable_state-Ends}
use zectrix_note4_platform.Sync.Accepts.{Accepts, accept_incoming_state-Ends}

-- `Initialize` on a store that holds nothing.
unfoldable pub opened : Engine
unfolding reset
opened = record reset { has_store = true }

-- A call that changes an initialised engine, with the answer of the store to each record.
pub data Call : Type 0 where
  puts : (List ℕ → Bool) → ℕ → ℕ → Input → Call
  acknowledges : (List ℕ → Bool) → ℕ → ℕ → Call
  accepts : (List ℕ → Bool) → ℕ → ℕ → Input → Call
  commits : (List ℕ → Bool) → ℕ → ℕ → Call
  reconciles : (List ℕ → Bool) → List SyncCursor → Call
  records : (List ℕ → Bool) → ℕ → ℕ → Input → Call

-- `none` is the null pointer that `ReconcilePeerCursors` never follows on a sound engine.
abbrev unless_null : Engine → Option Saved → Saved
unless_null e none = (store_error, e)
unless_null e (some r) = r

unfoldable pub call : Engine → Call → Saved
call e (puts save k r value) = put_durable_state save e k r value
call e (acknowledges save k r) = acknowledge_durable_state save e k r
call e (accepts save k r value) = accept_incoming_state save e k r value
call e (commits save k r) = commit_incoming_state save e k r
call e (reconciles save peer) = unless_null e (reconcile_peer_cursors save peer e)
call e (records save request_id result payload) =
    record_command_result save e request_id result payload

unfoldable pub run : Engine → List Call → Engine
run e [] = e
run e (c ∷ cs) = run (call e c).1 cs

-- The state is sound, and no counter is behind that of the state before.
pub record Follows (e e' : Engine) : Type 0 where
  pub sound : IsSound e'
  pub acks : (k : ℕ) → acked e k ≤ acked e' k
  pub applies : (k : ℕ) → applied e k ≤ applied e' k

Ends-Follows :
    (P : Engine → Type 0) (e : Engine) (r : Saved)
    → IsSound e
    → ((e' : Engine) → P e' → Follows e e')
    → Ends P e r
    → Follows e r.1
Ends-Follows P e r v step (inl (q, p)) = step r.1 p
Ends-Follows P e r v step (inr (q, same)) =
    rw same (record { sound = v; acks = λ k. omega arith; applies = λ k. omega arith })

Records-Follows : (e e' : Engine) → IsSound e → Records e e' → Follows e e'
Records-Follows e e' v p = record {
  sound = record {
    outbox_size = ap length p.outbox ∙ v.outbox_size;
    inbox_size = ap length p.inbox ∙ v.inbox_size;
    cursors_size = ap length p.cursors ∙ v.cursors_size;
    outbox_keys = rw p.outbox v.outbox_keys;
    inbox_keys = rw p.inbox v.inbox_keys;
    cursor_keys = rw p.cursors v.cursor_keys;
    outbox_entries = rw p.outbox v.outbox_entries;
    inbox_entries = rw p.inbox v.inbox_entries;
    clean = rw p.cursors v.clean;
    reserved = rw (p.outbox, p.cursors) v.reserved;
    ahead = rw (p.outbox, p.cursors) v.ahead;
    current = rw (p.inbox, p.cursors) v.current;
  };
  acks = λ k. rw p.cursors (omega arith);
  applies = λ k. rw p.cursors (omega arith);
}

call-Follows : (e : Engine) (c : Call) → IsSound e → Follows e (call e c).1
unfolding call
call-Follows e (puts save k r value) v =
    Ends-Follows (Puts e k r value) e (put_durable_state save e k r value) v
      (λ e' p. record {
        sound = p.sound;
        acks = λ j. omega (arith, p.acks j);
        applies = λ j. omega (arith, p.applies j);
      })
      (put_durable_state-Ends save e k r value v)
call-Follows e (acknowledges save k r) v =
    Ends-Follows (Acknowledges e k r) e (acknowledge_durable_state save e k r) v
      (λ e' p. record {
        sound = p.sound;
        acks = λ j. ground (arith, p.acks j, p.advances);
        applies = λ j. omega (arith, p.applies j);
      })
      (acknowledge_durable_state-Ends save e k r v)
call-Follows e (accepts save k r value) v =
    Ends-Follows (Accepts e k r value) e (accept_incoming_state save e k r value) v
      (λ e' p. record {
        sound = p.sound;
        acks = λ j. omega (arith, p.acks j);
        applies = λ j. ground (arith, p.applies j, p.advances);
      })
      (accept_incoming_state-Ends save e k r value v)
call-Follows e (commits save k r) v =
    Ends-Follows (Commits e k r) e (commit_incoming_state save e k r) v
      (λ e' p. record {
        sound = p.sound;
        acks = λ j. omega (arith, p.acks j);
        applies = λ j. ground (arith, p.applies j, p.advances);
      })
      (commit_incoming_state-Ends save e k r v)
call-Follows e (reconciles save peer) v =
    let (r, given, ends) = reconcile_peer_cursors-Ends save peer e v in
    rw given (
      Ends-Follows (CaughtUp e peer) e r v
        (λ e' p. record {
          sound = p.reconciled.sound;
          acks = p.forward;
          applies = λ j. omega (arith, p.reconciled.applies j);
        })
        ends)
call-Follows e (records save request_id result payload) v =
    Ends-Follows (Records e) e (record_command_result save e request_id result payload) v
      (λ e' p. Records-Follows e e' v p)
      (record_command_result-Ends save e request_id result payload)

-- From a sound engine any sequence of calls of PutDurableState, AcknowledgeDurableState,
-- AcceptIncomingState, CommitIncomingState, ReconcilePeerCursors and RecordCommandResult, with any
-- answers of the store, ends in a sound engine, and for every key neither the acknowledged nor the
-- applied revision ever falls.
pub run-Follows : (e : Engine) (cs : List Call) → IsSound e → Follows e (run e cs)
unfolding run
run-Follows e [] v = record { sound = v; acks = λ k. omega arith; applies = λ k. omega arith }
run-Follows e (c ∷ cs) v =
    let first = call-Follows e c v in
    let rest = run-Follows (call e c).1 cs first.sound in
    record {
      sound = rest.sound;
      acks = λ k. omega (arith, first.acks k, rest.acks k);
      applies = λ k. omega (arith, first.applies k, rest.applies k);
    }

-- Once a sound engine accepted a revision of a key, a revision of that key that is not above it is
-- refused after any further calls of PutDurableState, AcknowledgeDurableState, AcceptIncomingState,
-- CommitIncomingState, ReconcilePeerCursors and RecordCommandResult, whatever its value and the
-- store's answers, and changes nothing.
pub accept-run-accept :
    (e : Engine) (key revision again : ℕ) (value value' : Input) (save save' : List ℕ → Bool)
    (cs : List Call)
    → IsSound e
    → (accept_incoming_state save e key revision value).0 ≡ ok
    → again ≤ revision
    → let e' = run (accept_incoming_state save e key revision value).1 cs in
      (is_ok (accept_incoming_state save' e' key again value').0 ≡ false)
      × ((accept_incoming_state save' e' key again value').1 ≡ e')
accept-run-accept e key revision again value value' save save' cs v done le =
    finish (accept_incoming_state-Ends save e key revision value v)
  where
    first : Engine
    first = (accept_incoming_state save e key revision value).1

    late : Engine
    late = run first cs

    finish :
        Ends (Accepts e key revision value) e (accept_incoming_state save e key revision value)
        → (is_ok (accept_incoming_state save' late key again value').0 ≡ false)
          × ((accept_incoming_state save' late key again value').1 ≡ late)
    finish (inr (bad, same)) = absurd (ground arith)
    finish (inl (q, p)) =
        again_ends (accept_incoming_state-Ends save' late key again value' after.sound)
      where
        after : Follows first late
        after = run-Follows first cs p.sound

        again_ends :
            Ends
              (Accepts late key again value')
              late
              (accept_incoming_state save' late key again value')
            → (is_ok (accept_incoming_state save' late key again value').0 ≡ false)
              × ((accept_incoming_state save' late key again value').1 ≡ late)
        again_ends (inr (bad, same)) = (bad, same)
        again_ends (inl (q', p')) =
            absurd (ground (arith, p'.advances, p.applies key, after.applies key))

-- An engine whose arrays are all free is sound.
empty_find :
    {A : Type 0} (t : Keyed A) (k n : ℕ) (x : A)
    → t.valid x ≡ false
    → find t k (replicate n x) ≡ none
unfolding find
empty_find t k zero x h = refl
empty_find t k (suc n) x h = ground (arith, empty_find t k n x h)

empty-Unique :
    {A : Type 0} (t : Keyed A) (n : ℕ) (x : A) → t.valid x ≡ false → Unique t (replicate n x)
empty-Unique t zero x h = tt
empty-Unique t (suc n) x h = ((λ q. absurd (ground arith)), empty-Unique t n x h)

All-replicate : {A : Type 0} (P : A → Type 0) (n : ℕ) (x : A) → P x → All P (replicate n x)
All-replicate P zero x h = tt
All-replicate P (suc n) x h = (h, All-replicate P n x h)

pub opened-IsSound : IsSound opened
unfolding opened reset
opened-IsSound = record {
  outbox_size = refl;
  inbox_size = refl;
  cursors_size = refl;
  outbox_keys = empty-Unique durable 8 blank_entry refl;
  inbox_keys = empty-Unique durable 8 blank_entry refl;
  cursor_keys = empty-Unique by_cursor 8 blank_cursor refl;
  outbox_entries = All-replicate IsEntry 8 blank_entry (λ q. absurd (ground arith));
  inbox_entries = All-replicate IsEntry 8 blank_entry (λ q. absurd (ground arith));
  clean = All-replicate IsClean 8 blank_cursor (λ q. (refl, refl));
  reserved = λ k x h. absurd (ground (arith, empty_find durable k 8 blank_entry refl));
  ahead = λ k x h. absurd (ground (arith, empty_find durable k 8 blank_entry refl));
  current = λ k x h. absurd (ground (arith, empty_find durable k 8 blank_entry refl));
}
