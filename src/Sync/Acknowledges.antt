-- ===== src/Sync/Acknowledges.antt =====
-- `AcknowledgeDurableState` retires the pending value of exactly the acknowledged revision.
use zectrix_note4_platform.Sync.Outgoing.{acknowledge_at, acknowledge_durable_state}
use zectrix_note4_platform.Base.{
  All, All-set, Bool, Bool-cases, List, Option, Option-cases, add32, arith, false, get_or,
  if◌then◌else◌, inl, inr, leb, length, length-set, ltb, none, not, refl, set, set-get_or,
  set-set_restore, some, true, ℕ, ◌<◌, ◌==◌, ◌||◌, ◌∙◌, ◌≡◌, ◌≤◌,
}
use zectrix_note4_platform.Sync.Table.{
  find, index_of, At, holds, find-set, find-clear, At-value, At-All, index-value, Unique,
  Unique-set, Unique-clear, slot, slot-At,
}
use zectrix_note4_platform.Sync.State.{
  Engine, DurableEntry, CursorEntry, blank_entry, blank_cursor, durable, by_cursor, outbox_full,
  duplicate,
}
use zectrix_note4_platform.Sync.Invariant.{
  IsSound, applied_of, pending, acked, applied, IsClean, IsEntry, bumped, Ends, keep_or-Ends,
}

-- What stays pending: a newer value does.
abbrev pub left_pending : ℕ → Option DurableEntry → Option DurableEntry
left_pending revision none = none
left_pending revision (some x) = if revision == x.revision then none else some x

pub record Acknowledges (e : Engine) (key revision : ℕ) (e' : Engine) : Type 0 where
  pub sound : IsSound e'
  pub advances : acked e key < revision
  pub retires :
      (k : ℕ)
      → pending e' k ≡ (if key == k then left_pending revision (pending e key) else pending e k)
  pub acks : (k : ℕ) → acked e' k ≡ (if key == k then revision else acked e k)
  pub applies : (k : ℕ) → applied e' k ≡ applied e k
  pub inbox : e'.inbox ≡ e.inbox
  pub commands : e'.commands ≡ e.commands
  pub counted : e'.generation ≡ add32 e.generation 1
  pub rest : record e' { outbox = e.outbox; cursors = e.cursors; generation = e.generation } ≡ e

module _ (e : Engine) (key revision : ℕ) (i c : ℕ) (v : IsSound e)
    (entry_found : index_of (holds durable key) e.outbox ≡ some i)
    (at_cursor : At by_cursor key e.cursors c)
    (known : revision ≤ (get_or e.outbox i blank_entry).revision)
    (advances : (get_or e.cursors c blank_cursor).outbound_acknowledged < revision) where
  entry : DurableEntry
  entry = get_or e.outbox i blank_entry

  cursor : CursorEntry
  cursor = record (get_or e.cursors c blank_cursor) {
    key = key;
    valid = true;
    outbound_acknowledged = revision;
  }

  outbox' : List DurableEntry
  unfolding entry
  outbox' =
      if revision == entry.revision
      then set e.outbox i (record entry { valid = false })
      else e.outbox

  changed : Engine
  unfolding cursor outbox'
  changed = record e { outbox = outbox'; cursors = set e.cursors c cursor }

  entry_revision : revision ≤ entry.revision
  unfolding entry
  entry_revision = known

  pending-entry : pending e key ≡ some entry
  unfolding entry
  pending-entry = index-value durable key blank_entry e.outbox i entry_found

  prior_counts :
      (acked e key ≡ (get_or e.cursors c blank_cursor).outbound_acknowledged)
      × (applied_of (some cursor) ≡ applied e key)
  unfolding cursor
  prior_counts = ground (
    arith,
    At-value by_cursor key blank_cursor e.cursors c at_cursor,
    At-All by_cursor IsClean key blank_cursor e.cursors c at_cursor v.clean,
  )

  cursor-holds : holds by_cursor key cursor ≡ true
  unfolding cursor
  cursor-holds = ground arith

  cursors_found :
      (k : ℕ)
      → find by_cursor k changed.cursors
        ≡ (if key == k then some cursor else find by_cursor k e.cursors)
  unfolding changed
  cursors_found k = find-set by_cursor key k cursor e.cursors c at_cursor cursor-holds

  counts :
      (k : ℕ)
      → (acked changed k ≡ (if key == k then revision else acked e k))
        × (applied changed k ≡ applied e k)
  unfolding cursor
  counts k = ground (arith, cursors_found k, prior_counts)

  retired :
      (k : ℕ)
      → pending changed k
        ≡ (if key == k then left_pending revision (pending e key) else pending e k)
  unfolding changed entry
  retired k = elim (Bool-cases (revision == (get_or e.outbox i blank_entry).revision)) [
    | inl exact ↦ rw exact (
        ground (
          arith,
          pending-entry,
          exact,
          find-clear durable key k (record (get_or e.outbox i blank_entry) { valid = false })
              e.outbox i entry_found refl v.outbox_keys,
        ))
    | inr older ↦ rw older (ground (arith, pending-entry, older))
  ]

  outbox'-parts : (length outbox' ≡ length e.outbox) × Unique durable outbox' × All IsEntry outbox'
  unfolding outbox' entry
  outbox'-parts = elim (Bool-cases (revision == (get_or e.outbox i blank_entry).revision)) [
    | inl exact ↦ rw exact (
      length-set e.outbox i (record (get_or e.outbox i blank_entry) { valid = false }),
      Unique-clear durable key (record (get_or e.outbox i blank_entry) { valid = false }) e.outbox i
          entry_found refl v.outbox_keys,
      All-set IsEntry e.outbox i (record (get_or e.outbox i blank_entry) { valid = false })
          v.outbox_entries (λ q. absurd (cc)),
    )
    | inr older ↦ rw older (refl, v.outbox_keys, v.outbox_entries)
  ]

  changed-IsSound : IsSound (bumped changed)
  unfolding changed
  changed-IsSound = record {
    outbox_size = outbox'-parts.0 ∙ v.outbox_size;
    inbox_size = v.inbox_size;
    cursors_size = length-set e.cursors c cursor ∙ v.cursors_size;
    outbox_keys = outbox'-parts.1;
    inbox_keys = v.inbox_keys;
    cursor_keys = Unique-set by_cursor key cursor e.cursors c at_cursor cursor-holds v.cursor_keys;
    outbox_entries = outbox'-parts.2;
    inbox_entries = v.inbox_entries;
    clean = All-set IsClean e.cursors c cursor v.clean (λ q. absurd (ground (arith, cursor-holds)));
    reserved =
        λ k x h. ground (arith, cursors_found k, retired k, pending-entry, v.reserved k x, h);
    ahead = λ k x h.
        ground (arith, counts k, retired k, pending-entry, v.ahead k x, known, entry_revision, h);
    current = λ k x h. ground (arith, counts k, v.current k x, h);
  }

  changed-Acknowledges : Acknowledges e key revision (bumped changed)
  unfolding changed
  changed-Acknowledges = record {
    sound = changed-IsSound;
    advances = ground (arith, prior_counts);
    retires = retired;
    acks = λ k. (counts k).0;
    applies = λ k. (counts k).1;
    inbox = refl;
    commands = refl;
    counted = refl;
    rest = refl;
  }

  outbox_back : set outbox' i (get_or e.outbox i blank_entry) ≡ e.outbox
  unfolding outbox' entry
  outbox_back = elim (Bool-cases (revision == (get_or e.outbox i blank_entry).revision)) [
    | inl exact ↦ rw exact (
        set-set_restore e.outbox i (record (get_or e.outbox i blank_entry) { valid = false })
          blank_entry)
    | inr older ↦ rw older (set-get_or e.outbox i blank_entry)
  ]

  acknowledge_at-Ends :
      (save : List ℕ → Bool)
      → Ends (Acknowledges e key revision) e (acknowledge_at save e key revision i c)
  unfolding acknowledge_at changed cursor outbox' entry
  acknowledge_at-Ends save =
      let test : leb revision (get_or e.cursors c blank_cursor).outbound_acknowledged ≡ false =
        ground (arith, advances) in
      rw test (
        keep_or-Ends (Acknowledges e key revision) save e changed
          (λ e'. record e' {
            outbox = set e'.outbox i (get_or e.outbox i blank_entry);
            cursors = set e'.cursors c (get_or e.cursors c blank_cursor);
          })
          (ground (arith, outbox_back, set-set_restore e.cursors c cursor blank_cursor))
          changed-Acknowledges)

module _ (save : List ℕ → Bool) (e : Engine) (key revision : ℕ) (v : IsSound e) where
  acknowledge_at-again :
      (i c : ℕ)
      → leb revision (get_or e.cursors c blank_cursor).outbound_acknowledged ≡ true
      → acknowledge_at save e key revision i c ≡ (duplicate, e)
  unfolding acknowledge_at
  acknowledge_at-again i c again = rw again

  acknowledge_found-Ends :
      (i c : ℕ)
      → index_of (holds durable key) e.outbox ≡ some i
      → At by_cursor key e.cursors c
      → revision ≤ (get_or e.outbox i blank_entry).revision
      → Ends (Acknowledges e key revision) e (acknowledge_at save e key revision i c)
  acknowledge_found-Ends i c found at_cursor known =
      elim (Bool-cases (leb revision (get_or e.cursors c blank_cursor).outbound_acknowledged)) [
        | inl again ↦
            let refused : acknowledge_at save e key revision i c ≡ (duplicate, e) =
              acknowledge_at-again i c again in
            rw refused (inr (refl, refl))
        | inr advances ↦
            acknowledge_at-Ends e key revision i c v found at_cursor known (ground arith) save
      ]

  -- On a sound engine, whatever the store answers, `AcknowledgeDurableState` either returns `kOk`,
  -- and then the key's acknowledged revision rises to `revision`, a pending value of that revision
  -- is retired and a newer one stays pending, what is pending and acknowledged of the other keys
  -- and every applied revision stay, the generation rises by one, and all members but the outbox,
  -- the cursors and the generation stay as they are; or it returns another status and the engine
  -- is unchanged. The invariant holds again in both cases.
  pub acknowledge_durable_state-Ends :
      Ends (Acknowledges e key revision) e (acknowledge_durable_state save e key revision)
  unfolding acknowledge_durable_state
  acknowledge_durable_state-Ends = elim (Bool-cases (not e.has_store)) [
    | inl a ↦ rw a (inr (refl, refl))
    | inr a ↦ elim (Bool-cases (key == 0 || revision == 0)) [
      | inl b ↦ rw (a, b) (inr (refl, refl))
      | inr b ↦ elim (Option-cases (index_of (holds durable key) e.outbox)) [
        | inl absent ↦ rw (a, b, absent, acknowledge_durable_state) (inr (ground arith, refl))
        | inr (i, found) ↦
            elim (Bool-cases (ltb (get_or e.outbox i blank_entry).revision revision)) [
              | inl ahead ↦ rw (a, b, found, ahead, acknowledge_durable_state) (inr (refl, refl))
              | inr known ↦ elim (Option-cases (slot by_cursor key e.cursors)) [
                | inl full ↦
                    let refused : acknowledge_durable_state save e key revision ≡ (outbox_full, e) =
                      ground arith in
                    rw refused (inr (refl, refl))
                | inr (c, at_c) ↦
                    let placed : acknowledge_durable_state save e key revision
                        ≡ acknowledge_at save e key revision i c =
                      ground arith in
                    rw placed (
                      acknowledge_found-Ends i c found (slot-At by_cursor key e.cursors c at_c)
                        (ground arith))
              ]
            ]
      ]
    ]
  ]
