-- ===== src/Sync/Reconciles.antt =====
-- One round of `ReconcilePeerCursors` on a sound engine:
-- components/note4_companion/note4_sync_engine.cc.
pub mod Room
pub mod Verdict
pub mod Loop
pub mod Outcome
use zectrix_note4_platform.Base.{
  All, All-set, Bool, Bool-cases, List, Option, [], any, ap, arith, false, get_or, if◌then◌else◌,
  inl, inr, leb, length, length-set, none, not, refl, set, some, suc, true, ℕ, ◌<◌, ◌==◌, ◌||◌, ◌∙◌,
  ◌∷◌, ◌≡◌,
}
use zectrix_note4_platform.Sync.Table.{
  find, slot, Unique, holds, At, slot-At, find-set, At-value, At-All, Unique-set,
}
use zectrix_note4_platform.Sync.State.{
  Engine, DurableEntry, durable, CursorEntry, blank_cursor, by_cursor,
}
use zectrix_note4_platform.Sync.Invariant.{
  IsSound, applied_of, pending, acked, applied, IsClean, IsEntry, received, IsReserved,
}
use zectrix_note4_platform.Sync.Cursors.{retire, is_retired, SyncCursor, apply_cursor}

-- What stays pending of a value when the peer has applied up to `revision`.
abbrev pub unapplied : ℕ → Option DurableEntry → Option DurableEntry
unapplied revision none = none
unapplied revision (some x) = if leb x.revision revision then none else some x

module _ (key revision : ℕ) where
  abbrev one : DurableEntry → DurableEntry
  one x = if is_retired key revision x then record x { valid = false } else x

  find-retire :
      (j : ℕ) (xs : List DurableEntry)
      → Unique durable xs
      → find durable j (retire key revision xs)
        ≡ (if key == j then unapplied revision (find durable j xs) else find durable j xs)
  unfolding find retire
  find-retire j [] u = ground arith
  find-retire j (x ∷ xs) (u, us) = ground (arith, u, find-retire j xs us)

  Unique-retire :
      (xs : List DurableEntry) → Unique durable xs → Unique durable (retire key revision xs)
  unfolding retire
  Unique-retire [] u = tt
  Unique-retire (x ∷ xs) (u, us) =
      ((λ v. ground (arith, u, find-retire (one x).key xs us)), Unique-retire xs us)

  length-retire : (xs : List DurableEntry) → length (retire key revision xs) ≡ length xs
  unfolding retire
  length-retire [] = refl
  length-retire (x ∷ xs) = ap suc (length-retire xs)

  IsEntry-retire : (xs : List DurableEntry) → All IsEntry xs → All IsEntry (retire key revision xs)
  unfolding retire
  IsEntry-retire [] h = tt
  IsEntry-retire (x ∷ xs) h = ((λ v. ground (arith, h.0)), IsEntry-retire xs h.1)

-- One cursor of the peer taken over.
pub record TakesOver (e : Engine) (other : SyncCursor) (e' : Engine) : Type 0 where
  pub sound : IsSound e'
  pub acks : (k : ℕ) → acked e' k ≡ (if other.key == k then other.inbound_applied else acked e k)
  pub applies : (k : ℕ) → applied e' k ≡ applied e k
  pub retires :
      (k : ℕ)
      → pending e' k
        ≡ (if other.key == k then unapplied other.inbound_applied (pending e k) else pending e k)
  pub rest : record e' { cursors = e.cursors; outbox = e.outbox } ≡ e

module _ (e : Engine) (other : SyncCursor) (v : IsSound e) (i : ℕ)
    (there : slot by_cursor other.key e.cursors ≡ some i) where
  At-slot : At by_cursor other.key e.cursors i
  At-slot = slot-At by_cursor other.key e.cursors i there

  cursor : CursorEntry
  cursor = record (get_or e.cursors i blank_cursor) {
    valid = true;
    key = other.key;
    outbound_acknowledged = other.inbound_applied;
  }

  taken : Engine
  unfolding cursor
  taken = record e {
    cursors = set e.cursors i cursor;
    outbox = retire other.key other.inbound_applied e.outbox;
  }

  cursor-holds : holds by_cursor other.key cursor ≡ true
  unfolding cursor
  cursor-holds = ground arith

  cursor_found :
      (k : ℕ)
      → find by_cursor k taken.cursors
        ≡ (if other.key == k then some cursor else find by_cursor k e.cursors)
  unfolding taken
  cursor_found k = find-set by_cursor other.key k cursor e.cursors i At-slot cursor-holds

  cursor-applied : applied_of (some cursor) ≡ applied e other.key
  unfolding cursor
  cursor-applied = ground (
    arith,
    At-value by_cursor other.key blank_cursor e.cursors i At-slot,
    At-All by_cursor IsClean other.key blank_cursor e.cursors i At-slot v.clean,
  )

  acks_taken :
      (k : ℕ) → acked taken k ≡ (if other.key == k then other.inbound_applied else acked e k)
  unfolding cursor
  acks_taken k = ground (arith, cursor_found k)

  applies_taken : (k : ℕ) → applied taken k ≡ applied e k
  applies_taken k = ground (arith, cursor_found k, cursor-applied)

  retires_taken :
      (k : ℕ)
      → pending taken k
        ≡ (if other.key == k then unapplied other.inbound_applied (pending e k) else pending e k)
  unfolding taken
  retires_taken k = find-retire other.key other.inbound_applied k e.outbox v.outbox_keys

  taken-IsReserved :
      (k : ℕ) (x : DurableEntry)
      → pending taken k ≡ some x
      → IsReserved (find by_cursor k taken.cursors)
  taken-IsReserved k x p = elim (Bool-cases (other.key == k)) [
    | inl hit ↦ rw (cursor_found k, hit) tt
    | inr miss ↦ rw (cursor_found k, miss) (v.reserved k x (ground (arith, retires_taken k)))
  ]

  ahead_taken : (k : ℕ) (x : DurableEntry) → pending taken k ≡ some x → acked taken k < x.revision
  ahead_taken k x p = ground (arith, retires_taken k, acks_taken k, v.ahead k x)

  current_taken :
      (k : ℕ) (x : DurableEntry) → received taken k ≡ some x → applied taken k ≡ x.revision
  unfolding taken
  current_taken k x p = applies_taken k ∙ v.current k x p

  cursor-IsClean : IsClean cursor
  unfolding cursor
  cursor-IsClean empty = absurd (cc)

  taken-IsSound : IsSound taken
  unfolding taken
  taken-IsSound = record {
    outbox_size = length-retire other.key other.inbound_applied e.outbox ∙ v.outbox_size;
    inbox_size = v.inbox_size;
    cursors_size = length-set e.cursors i cursor ∙ v.cursors_size;
    outbox_keys = Unique-retire other.key other.inbound_applied e.outbox v.outbox_keys;
    inbox_keys = v.inbox_keys;
    cursor_keys =
        Unique-set by_cursor other.key cursor e.cursors i At-slot cursor-holds v.cursor_keys;
    outbox_entries = IsEntry-retire other.key other.inbound_applied e.outbox v.outbox_entries;
    inbox_entries = v.inbox_entries;
    clean = All-set IsClean e.cursors i cursor v.clean cursor-IsClean;
    reserved = taken-IsReserved;
    ahead = ahead_taken;
    current = current_taken;
  }

  taken-TakesOver : TakesOver e other taken
  unfolding taken
  taken-TakesOver = record {
    sound = taken-IsSound;
    acks = acks_taken;
    applies = applies_taken;
    retires = retires_taken;
    rest = refl;
  }

  -- The round never follows a null pointer, and ends in this state.
  pub apply_cursor-taken :
      (changed : Bool)
      → (e' : Engine) × (changed' : Bool) × (c : CursorEntry) × (apply_cursor other (e, changed)
          ≡ some (e', changed'))
        × TakesOver e other e'
        × (holds by_cursor other.key c ≡ true)
        × (e'.cursors ≡ set e.cursors i c)
        × ((k : ℕ)
            → find by_cursor k e'.cursors
              ≡ (if other.key == k then some c else find by_cursor k e.cursors))
  unfolding apply_cursor taken cursor
  apply_cursor-taken changed = (
    taken,
    changed
        || (not (get_or e.cursors i blank_cursor).valid
            || not
                ((get_or e.cursors i blank_cursor).outbound_acknowledged == other.inbound_applied))
        || any (is_retired other.key other.inbound_applied) e.outbox,
    cursor,
    rw (apply_cursor, there) refl,
    taken-TakesOver,
    cursor-holds,
    refl,
    cursor_found,
  )
