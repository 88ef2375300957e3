-- ===== src/Sync/Reload/Bytes.antt =====
-- The record is made of bytes, so its CRC is a word:
-- components/note4_companion/note4_sync_engine.cc.
use zectrix_note4_platform.Sync.Reload.Written.{
  command_bytes, cursor_bytes, inbox_bytes, outbox_bytes, body_bytes,
}
use zectrix_note4_platform.Sync.Reload.Loaded.{record_count, IsStorable}
use zectrix_note4_platform.Base.{
  All, All-append, Bool-cases, List, [], arith, inl, inr, le16, le32, length, length-append, true,
  ℕ, ◌%◌, ◌++◌, ◌<◌, ◌∷◌, ◌≡◌, ◌≤◌,
}
use zectrix_note4_platform.Sync.Table.{Keyed}
use zectrix_note4_platform.Sync.State.{
  DurableEntry, CursorEntry, CommandEntry, Engine, durable, by_cursor, by_request,
}
use zectrix_note4_platform.Sync.Persist.{
  entry_content, cursor_content, command_content, outbox_type, cursor_type, command_type,
  inbox_type,
}
use zectrix_note4_platform.Sync.Reload.Compact.{kept}
use zectrix_note4_platform.Sync.Reload.Records.{IsStored, IsCursor, IsCommand}
use zectrix_note4_platform.Sync.Reload.Tables.{table_bytes, record_of}

abbrev pub AllBytes : List ℕ → Type 0
AllBytes = All (λ b. b < 256)

entry-bytes : (x : DurableEntry) → IsStored x → AllBytes (entry_content x)
unfolding entry_content
entry-bytes x s =
    All-append (λ b. b < 256) (le16 x.key ++ le32 x.revision ++ le16 (length x.value)) x.value
      (omega arith) s.value_bytes

cursor-bytes : (c : CursorEntry) → IsCursor c → AllBytes (cursor_content c)
unfolding cursor_content
cursor-bytes c s = omega arith

command-bytes : (c : CommandEntry) → IsCommand c → AllBytes (command_content c)
unfolding command_content
command-bytes c s =
    All-append (λ b. b < 256)
      (le32 c.request_id ++ le32 c.stamp ++ le16 c.result ++ (length c.payload % 256 ∷ 0 ∷ []))
      c.payload (omega arith) s.payload_bytes

module _ {A : Type 0} (t : Keyed A) (type : ℕ) (small : type < 256) (content : A → List ℕ)
    (IsGood : A → Type 0) (all_bytes : (x : A) → IsGood x → AllBytes (content x)) where
  table-bytes :
      (xs : List A)
      → All (λ x. t.valid x ≡ true → IsGood x) xs
      → AllBytes (table_bytes t type content xs)
  table-bytes [] h = tt
  table-bytes (x ∷ xs) h = elim (Bool-cases (t.valid x)) [
    | inr empty ↦ rw empty (table-bytes xs h.1)
    | inl taken ↦ rw taken (
        let front : AllBytes (record_of type (content x)) =
          (small, (omega arith, (omega arith, (omega arith, all_bytes x (h.0 taken))))) in
        All-append (λ b. b < 256) (record_of type (content x)) (table_bytes t type content xs) front
          (table-bytes xs h.1))
  ]

  table-count : (xs : List A) → length (kept t xs) ≤ length (table_bytes t type content xs)
  table-count [] = omega arith
  table-count (x ∷ xs) = elim (Bool-cases (t.valid x)) [
    | inr empty ↦ rw empty (table-count xs)
    | inl taken ↦
        rw taken
          (omega (arith, table-count xs, length-append (content x) (table_bytes t type content xs)))
  ]

module _ (e : Engine) (s : IsStorable e) where
  pub body_bytes-bytes : AllBytes (body_bytes e)
  body_bytes-bytes =
      let a =
        table-bytes durable outbox_type (omega arith) entry_content IsStored entry-bytes e.outbox
          s.outbox_stored in
      let b =
        table-bytes durable inbox_type (omega arith) entry_content IsStored entry-bytes e.inbox
          s.inbox_stored in
      let c =
        table-bytes by_cursor cursor_type (omega arith) cursor_content IsCursor cursor-bytes
          e.cursors s.cursors_stored in
      let d =
        table-bytes by_request command_type (omega arith) command_content IsCommand command-bytes
          e.commands s.commands_stored in
      let small = λ (n : ℕ). n < 256 in
      All-append small (outbox_bytes e)
        (inbox_bytes e ++ (cursor_bytes e ++ (command_bytes e ++ []))) a
        (All-append small (inbox_bytes e) (cursor_bytes e ++ (command_bytes e ++ [])) b (
          All-append small (cursor_bytes e) (command_bytes e ++ []) c
            (All-append small (command_bytes e) [] d tt)))

  -- Fewer records than bytes.
  pub record_count-le : record_count e ≤ length (body_bytes e)
  record_count-le = omega (
    arith,
    table-count durable outbox_type (omega arith) entry_content IsStored entry-bytes e.outbox,
    table-count durable inbox_type (omega arith) entry_content IsStored entry-bytes e.inbox,
    table-count by_cursor cursor_type (omega arith) cursor_content IsCursor cursor-bytes e.cursors,
    table-count by_request command_type (omega arith) command_content IsCommand command-bytes
        e.commands,
    length-append (outbox_bytes e) (inbox_bytes e ++ (cursor_bytes e ++ (command_bytes e ++ []))),
    length-append (inbox_bytes e) (cursor_bytes e ++ (command_bytes e ++ [])),
    length-append (cursor_bytes e) (command_bytes e ++ []),
    length-append (command_bytes e) [],
  )
