-- ===== src/Sync/Reconciles/Loop.antt =====
-- The loop of `ReconcilePeerCursors` that takes the peer's cursors over:
-- components/note4_companion/note4_sync_engine.cc.
use zectrix_note4_platform.Base.{
  Bool, List, Option, Option-cases, [], ap, arith, if◌then◌else◌, inl, inr, none, refl, some, suc,
  ℕ, ◌+◌, ◌==◌, ◌∙◌, ◌∷◌, ◌≡◌, ◌≤◌,
}
use zectrix_note4_platform.Sync.Table.{find, slot, slot-At, find-slot}
use zectrix_note4_platform.Sync.State.{Engine, key_capacity, DurableEntry, by_cursor, CursorEntry}
use zectrix_note4_platform.Sync.Invariant.{IsSound, pending, acked, applied}
use zectrix_note4_platform.Sync.Cursors.{SyncCursor, apply_cursors, is_none}
use zectrix_note4_platform.Sync.Reconciles.{unapplied, apply_cursor-taken}
use zectrix_note4_platform.Sync.Reconciles.Room.{
  news, count_valid, slot-full, count_valid-set, AreDistinct, news-set,
}

-- What the peer has applied of a key by its cursors, over what was known.
abbrev pub acknowledged_by : List SyncCursor → ℕ → ℕ → ℕ
acknowledged_by [] k known = known
acknowledged_by (o ∷ os) k known =
    acknowledged_by os k (if o.key == k then o.inbound_applied else known)

-- What stays pending of a key.
abbrev pub pending_after : List SyncCursor → ℕ → Option DurableEntry → Option DurableEntry
pending_after [] k x = x
pending_after (o ∷ os) k x =
    pending_after os k (if o.key == k then unapplied o.inbound_applied x else x)

-- The peer's cursors taken over.
pub record Reconciled (e : Engine) (peer : List SyncCursor) (e' : Engine) : Type 0 where
  pub sound : IsSound e'
  pub acks : (k : ℕ) → acked e' k ≡ acknowledged_by peer k (acked e k)
  pub applies : (k : ℕ) → applied e' k ≡ applied e k
  pub retires : (k : ℕ) → pending e' k ≡ pending_after peer k (pending e k)
  pub inbox : e'.inbox ≡ e.inbox
  pub commands : e'.commands ≡ e.commands

-- Room for every new key.
abbrev HasRoom : Engine → List SyncCursor → Type 0
HasRoom e os = count_valid e.cursors + news e.cursors os ≤ key_capacity

slot_there :
    (e : Engine) (o : SyncCursor) (os : List SyncCursor)
    → IsSound e
    → HasRoom e (o ∷ os)
    → (i : ℕ) × (slot by_cursor o.key e.cursors ≡ some i)
unfolding news
slot_there e o os v room = elim (Option-cases (slot by_cursor o.key e.cursors)) [
  | inr found ↦ found
  | inl gone ↦ elim (Option-cases (find by_cursor o.key e.cursors)) [
    | inr (c, known) ↦ absurd (find-slot by_cursor o.key e.cursors c known gone)
    | inl new ↦ absurd (ground (arith, slot-full o.key e.cursors gone, v.cursors_size))
  ]
]

room_after :
    (known : Option CursorEntry) (count more : ℕ)
    → count + ((if is_none known then 1 else 0) + more) ≤ key_capacity
    → (if is_none known then suc count else count) + more ≤ key_capacity
room_after none count more h = omega arith
room_after (some c) count more h = omega arith

pub apply_cursors-Reconciled :
    (os : List SyncCursor) (e : Engine) (changed : Bool)
    → IsSound e
    → AreDistinct os
    → HasRoom e os
    → (e' : Engine) × (changed' : Bool) × (apply_cursors os (e, changed) ≡ some (e', changed'))
      × Reconciled e os e'
      × (record e' { cursors = e.cursors; outbox = e.outbox } ≡ e)
unfolding apply_cursors news
apply_cursors-Reconciled [] e changed v d room = (
  e,
  changed,
  refl,
  record {
    sound = v;
    acks = λ k. refl;
    applies = λ k. refl;
    retires = λ k. refl;
    inbox = refl;
    commands = refl;
  },
  refl,
)
apply_cursors-Reconciled (o ∷ os) e changed v d room =
    let (i, there) = slot_there e o os v room in
    let (e1, changed1, c, step, t, holds_c, table, finds) =
      apply_cursor-taken e o v i there changed in
    let count =
      count_valid-set o.key c e.cursors i (slot-At by_cursor o.key e.cursors i there) holds_c in
    let fewer = news-set o.key c e.cursors e1.cursors os finds d.0 in
    let room1 : HasRoom e1 os =
      rw (fewer, ap count_valid table ∙ count)
        (room_after (find by_cursor o.key e.cursors) (count_valid e.cursors) (news e.cursors os)
          room) in
    let (e2, changed2, rest, r, same) = apply_cursors-Reconciled os e1 changed1 t.sound d.1 room1 in
    let back =
      ap (λ (x : Engine). record x { cursors = e.cursors; outbox = e.outbox }) same ∙ t.rest in
    (
      e2,
      changed2,
      rw (apply_cursors, step) rest,
      record {
        sound = r.sound;
        acks = λ k. r.acks k ∙ ap (acknowledged_by os k) (t.acks k);
        applies = λ k. r.applies k ∙ t.applies k;
        retires = λ k. r.retires k ∙ ap (pending_after os k) (t.retires k);
        inbox = ap (λ (x : Engine). x.inbox) back;
        commands = ap (λ (x : Engine). x.commands) back;
      },
      back,
    )
