-- ===== src/Sync/Invariant.antt =====
-- What holds of a sync engine between two calls, and what an observer sees of it.
use zectrix_note4_platform.Base.{
  All, Bool, Bool-cases, List, Option, Option-cases, add32, arith, false, inl, inr, length, none,
  refl, some, true, ℕ, ◌<◌, ◌≡◌, ◌≤◌, ◌⊎◌,
}
use zectrix_note4_platform.Sync.Table.{find, Unique}
use zectrix_note4_platform.Sync.State.{
  Engine, key_capacity, value_capacity, SyncStatus, DurableEntry, CursorEntry, durable, by_cursor,
  ok, not_initialized, store_error,
}
use zectrix_note4_platform.Sync.Persist.{persist, is_ok, write_record, Saved, keep_or}

-- The highest revision of ours that the peer has acknowledged, and of the peer's that we applied.
abbrev pub acked_of : Option CursorEntry → ℕ
acked_of none = 0
acked_of (some c) = c.outbound_acknowledged

abbrev pub applied_of : Option CursorEntry → ℕ
applied_of none = 0
applied_of (some c) = c.inbound_applied

abbrev pub pending : Engine → ℕ → Option DurableEntry
pending e k = find durable k e.outbox

abbrev pub received : Engine → ℕ → Option DurableEntry
received e k = find durable k e.inbox

abbrev pub acked : Engine → ℕ → ℕ
acked e k = acked_of (find by_cursor k e.cursors)

abbrev pub applied : Engine → ℕ → ℕ
applied e k = applied_of (find by_cursor k e.cursors)

abbrev pub IsReserved : Option CursorEntry → Type 0
IsReserved none = ⊥
IsReserved (some c) = Unit

-- A free cursor slot counts nothing.
abbrev pub IsClean : CursorEntry → Type 0
IsClean c = c.valid ≡ false → (c.outbound_acknowledged ≡ 0) × (c.inbound_applied ≡ 0)

-- An entry that fits the record format.
abbrev pub IsEntry : DurableEntry → Type 0
IsEntry x = x.valid ≡ true → (0 < x.key) × (0 < x.revision) × (length x.value ≤ value_capacity)

-- The arrays keep their sizes and no key twice; every pending value has a cursor that it is ahead
-- of, and every received value is the one that its cursor says was applied last. `LoadState`
-- refuses a record of which the last two do not hold.
pub record IsSound (e : Engine) : Type 0 where
  pub outbox_size : length e.outbox ≡ key_capacity
  pub inbox_size : length e.inbox ≡ key_capacity
  pub cursors_size : length e.cursors ≡ key_capacity
  pub outbox_keys : Unique durable e.outbox
  pub inbox_keys : Unique durable e.inbox
  pub cursor_keys : Unique by_cursor e.cursors
  pub outbox_entries : All IsEntry e.outbox
  pub inbox_entries : All IsEntry e.inbox
  pub clean : All IsClean e.cursors
  pub reserved :
      (k : ℕ) (x : DurableEntry) → pending e k ≡ some x → IsReserved (find by_cursor k e.cursors)
  pub ahead : (k : ℕ) (x : DurableEntry) → pending e k ≡ some x → acked e k < x.revision
  pub current : (k : ℕ) (x : DurableEntry) → received e k ≡ some x → applied e k ≡ x.revision

-- A save succeeds and raises the generation, or fails and changes nothing.
abbrev pub bumped : Engine → Engine
bumped e = record e { generation = add32 e.generation 1 }

pub persist-cases :
    (save : List ℕ → Bool) (e : Engine)
    → (persist save e ≡ (ok, bumped e))
      ⊎ ((s : SyncStatus) × (is_ok s ≡ false) × (persist save e ≡ (s, e)))
unfolding persist
persist-cases save e = elim (Bool-cases e.has_store) [
  | inr no_store ↦ inr (not_initialized, refl, ground arith)
  | inl store ↦ elim (Option-cases (write_record e)) [
    | inl no_room ↦ inr (store_error, refl, ground arith)
    | inr (r, w) ↦ elim (Bool-cases (save r)) [
      | inl saved ↦ inl (ground arith)
      | inr failed ↦ inr (store_error, refl, ground arith)
    ]
  ]
]

-- An operation ended well, by `P` of the new state, or it left the state as it was.
abbrev pub Ends : (Engine → Type 0) → Engine → Saved → Type 0
Ends P e (s, e') = ((s ≡ ok) × P e') ⊎ ((is_ok s ≡ false) × (e' ≡ e))

-- With the old entries put back on a failure.
pub keep_or-Ends :
    (P : Engine → Type 0) (save : List ℕ → Bool) (e changed : Engine) (restore : Engine → Engine)
    → restore changed ≡ e
    → P (bumped changed)
    → Ends P e (keep_or restore (persist save changed))
keep_or-Ends P save e changed restore back p = elim (persist-cases save changed) [
  | inl saved ↦ rw saved (inl (refl, p))
  | inr (s, bad, failed) ↦ rw (failed, bad) (inr (refl, back))
]
