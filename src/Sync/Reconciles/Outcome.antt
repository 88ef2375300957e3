-- ===== src/Sync/Reconciles/Outcome.antt =====
-- Every way that `ReconcilePeerCursors` ends:
-- components/note4_companion/note4_sync_engine.cc.
use zectrix_note4_platform.Base.{
  ==_iff, Bool, Bool-cases, List, Option, [], all, arith, false, if◌then◌else◌, inl, inr, length,
  ltb, not, refl, some, true, ℕ, ◌+◌, ◌==◌, ◌∷◌, ◌≡◌, ◌≤◌,
}
use native.Mathlib.Nat.{le_refl}
use zectrix_note4_platform.Sync.State.{
  Engine, key_capacity, SyncStatus, ok, not_initialized, invalid_argument, outbox_full,
  resync_required,
}
use zectrix_note4_platform.Sync.Persist.{is_ok, persist, Saved, keep_or}
use zectrix_note4_platform.Sync.Invariant.{IsSound, Ends, acked, bumped, keep_or-Ends}
use zectrix_note4_platform.Sync.Cursors.{
  SyncCursor, take_over, cursors_of, find_cursor, compatible, check_peer, reconcile_peer_cursors,
}
use zectrix_note4_platform.Sync.Reconciles.Room.{news, count_valid, AreDistinct}
use zectrix_note4_platform.Sync.Reconciles.Loop.{
  Reconciled, acknowledged_by, apply_cursors-Reconciled,
}
use zectrix_note4_platform.Sync.Reconciles.Verdict.{
  check_peer-passed, AreForward, length-cursors_of,
}

-- The peer's cursors are taken over, and no acknowledgement has moved back.
pub record CaughtUp (e : Engine) (peer : List SyncCursor) (e' : Engine) : Type 0 where
  pub reconciled : Reconciled e peer e'
  pub forward : (k : ℕ) → acked e k ≤ acked e' k

acknowledged_by-le :
    (e : Engine) (os : List SyncCursor) (k known : ℕ)
    → AreForward e os
    → acked e k ≤ known
    → acked e k ≤ acknowledged_by os k known
acknowledged_by-le e [] k known f h = h
acknowledged_by-le e (o ∷ os) k known f h =
    acknowledged_by-le e os k (if o.key == k then o.inbound_applied else known) f.1
      (here (o.key == k) (λ q. rw ((==_iff o.key k).0 q) at f.0))
  where
    here :
        (b : Bool)
        → (b ≡ true → acked e k ≤ o.inbound_applied)
        → acked e k ≤ (if b then o.inbound_applied else known)
    here true g = g refl
    here false g = h

bumped-IsSound : (e : Engine) → IsSound e → IsSound (bumped e)
bumped-IsSound e v = record {
  outbox_size = v.outbox_size;
  inbox_size = v.inbox_size;
  cursors_size = v.cursors_size;
  outbox_keys = v.outbox_keys;
  inbox_keys = v.inbox_keys;
  cursor_keys = v.cursor_keys;
  outbox_entries = v.outbox_entries;
  inbox_entries = v.inbox_entries;
  clean = v.clean;
  reserved = v.reserved;
  ahead = v.ahead;
  current = v.current;
}

bumped-CaughtUp :
    (e e' : Engine) (peer : List SyncCursor) → CaughtUp e peer e' → CaughtUp e peer (bumped e')
bumped-CaughtUp e e' peer c =
    let r = c.reconciled in
    record {
      reconciled = record {
        sound = bumped-IsSound e' r.sound;
        acks = r.acks;
        applies = r.applies;
        retires = r.retires;
        inbox = r.inbox;
        commands = r.commands;
      };
      forward = c.forward;
    }

take_over-Ends :
    (save : List ℕ → Bool) (peer : List SyncCursor) (e : Engine)
    → IsSound e
    → AreDistinct peer
    → count_valid e.cursors + news e.cursors peer ≤ key_capacity
    → AreForward e peer
    → (r : Saved) × (take_over save peer e ≡ some r) × Ends (CaughtUp e peer) e r
unfolding take_over
take_over-Ends save peer e v d room f =
    let (e', changed, loop, r, back) = apply_cursors-Reconciled peer e false v d room in
    let caught : CaughtUp e peer e' = record {
      reconciled = r;
      forward = λ k. rw (r.acks k) (acknowledged_by-le e peer k (acked e k) f (le_refl _));
    } in
    elim (Bool-cases changed) [
      | inr same ↦ ((ok, e'), rw (take_over, loop, same) refl, inl (refl, caught))
      | inl moved ↦ (
        keep_or (λ x. record x { cursors = e.cursors; outbox = e.outbox }) (persist save e'),
        rw (take_over, loop, moved) refl,
        keep_or-Ends (CaughtUp e peer) save e e'
            (λ x. record x { cursors = e.cursors; outbox = e.outbox }) back
            (bumped-CaughtUp e e' peer caught),
      )
    ]

record Settles (e : Engine) (peer : List SyncCursor) (o : Option Saved) : Type 0 where
  saved : Saved
  given : o ≡ some saved
  ends : Ends (CaughtUp e peer) e saved

Settles-if :
    (e : Engine) (peer : List SyncCursor) (b : Bool) (x y : Option Saved)
    → Settles e peer x
    → (b ≡ false → Settles e peer y)
    → Settles e peer (if b then x else y)
Settles-if e peer true x y hx hy = hx
Settles-if e peer false x y hx hy = hy refl

stays :
    (e : Engine) (peer : List SyncCursor) (s : SyncStatus)
    → is_ok s ≡ false
    → Settles e peer (some (s, e))
stays e peer s bad = record { saved = (s, e); given = refl; ends = inr (bad, refl) }

checked_if :
    (save : List ℕ → Bool) (peer : List SyncCursor) (e : Engine)
    → IsSound e
    → let checked = check_peer e [] peer (length (cursors_of e)) in
      Settles e peer (
        if not (is_ok checked.0)
        then some (checked.0, e)
        else if not (all (λ own. compatible own (find_cursor peer own.key)) (cursors_of e))
        then some (resync_required, e)
        else if ltb key_capacity checked.1
        then some (outbox_full, e)
        else take_over save peer e)
checked_if save peer e v =
    let checked = check_peer e [] peer (length (cursors_of e)) in
    elim (Bool-cases (is_ok checked.0)) [
      | inr bad ↦ rw bad (stays e peer checked.0 bad)
      | inl good ↦
          let (count, unseen, distinct, f) =
            check_peer-passed e peer [] (length (cursors_of e)) good in
          rw good (
            Settles-if e peer
              (not (all (λ own. compatible own (find_cursor peer own.key)) (cursors_of e))) _ _
              (stays e peer resync_required refl)
              (λ agreed.
                Settles-if e peer (ltb key_capacity checked.1) _ _ (stays e peer outbox_full refl)
                  (λ room.
                    let fits : count_valid e.cursors + news e.cursors peer ≤ key_capacity =
                      ground (arith, count, length-cursors_of e) in
                    let (r, given, ends) = take_over-Ends save peer e v distinct fits f in
                    record { saved = r; given = given; ends = ends })))
    ]

settled :
    (save : List ℕ → Bool) (peer : List SyncCursor) (e : Engine)
    → IsSound e
    → Settles e peer (reconcile_peer_cursors save peer e)
unfolding reconcile_peer_cursors
settled save peer e v =
    let checked = check_peer e [] peer (length (cursors_of e)) in
    Settles-if e peer (not e.has_store) _ _ (stays e peer not_initialized refl) (λ store.
      Settles-if e peer (ltb key_capacity (length peer)) _ _ (stays e peer invalid_argument refl)
        (λ few. checked_if save peer e v))

-- On a sound engine, for any cursors of a peer, the call never follows a null pointer, and it ends
-- in one of two ways. Either it succeeds: the engine is sound again, each key's acknowledgement is
-- what the peer has applied of it, if the peer lists the key, exactly the pending values that the
-- peer has applied are retired, what we applied, the received values and the command results stay,
-- and no acknowledgement moves back. Or its status is not `ok` and the engine is unchanged.
pub reconcile_peer_cursors-Ends :
    (save : List ℕ → Bool) (peer : List SyncCursor) (e : Engine)
    → IsSound e
    → (r : Saved) × (reconcile_peer_cursors save peer e ≡ some r) × Ends (CaughtUp e peer) e r
reconcile_peer_cursors-Ends save peer e v =
    let s = settled save peer e v in (s.saved, s.given, s.ends)
