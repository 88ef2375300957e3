-- ===== src/Sync/Reload/Records.antt =====
-- One record, read back: the content that `Persist` writes for an entry, a cursor or a command
-- result, under `LoadState`. components/note4_companion/note4_sync_engine.cc.
use zectrix_note4_platform.Base.{
  All, List, [], arith, drop, false, get_or, length, none, not, of_le16, of_le32, refl, replicate,
  some, suc, take-length, true, u32_mod, ℕ, ◌%◌, ◌++◌, ◌+◌, ◌/◌, ◌<◌, ◌==◌, ◌∷◌, ◌≡◌, ◌≤◌,
}
use zectrix_note4_platform.Protocol.{u16_at, u32_at}
use zectrix_note4_platform.Sync.Table.{find}
use zectrix_note4_platform.Sync.State.{
  value_capacity, result_capacity, DurableEntry, CursorEntry, CommandEntry, blank_entry, durable,
  blank_cursor, blank_command, by_cursor, by_request,
}
use zectrix_note4_platform.Sync.Persist.{entry_content, cursor_content, command_content}
use zectrix_note4_platform.Sync.Load.{load_entry, load_cursor, command_of, load_command}
use zectrix_note4_platform.Sync.Reload.Compact.{AllValid, free_slot-compact, set-length_append}

word16 : (n : ℕ) → n < 65536 → of_le16 (n % 256) (n / 256 % 256) ≡ n
word16 n h = omega arith

word32 :
    (n : ℕ)
    → n < u32_mod
    → of_le32 (n % 256) (n / 256 % 256) (n / 65536 % 256) (n / 16777216 % 256) ≡ n
word32 n h = omega arith

-- The fields fit their types, and a valid entry is one that the engine would take.
pub record IsStored (x : DurableEntry) : Type 0 where
  pub key_word : x.key < 65536
  pub key_set : 0 < x.key
  pub revision_word : x.revision < u32_mod
  pub revision_set : 0 < x.revision
  pub value_size : length x.value ≤ value_capacity
  pub value_bytes : All (λ b. b < 256) x.value

pub record IsCursor (c : CursorEntry) : Type 0 where
  pub key_word : c.key < 65536
  pub key_set : 0 < c.key
  pub acknowledged_word : c.outbound_acknowledged < u32_mod
  pub applied_word : c.inbound_applied < u32_mod

pub record IsCommand (c : CommandEntry) : Type 0 where
  pub request_word : c.request_id < u32_mod
  pub request_set : 0 < c.request_id
  pub stamp_word : c.stamp < u32_mod
  pub stamp_set : 0 < c.stamp
  pub result_word : c.result < 65536
  pub payload_size : length c.payload ≤ result_capacity
  pub payload_bytes : All (λ b. b < 256) c.payload

module _ (x : DurableEntry) (s : IsStored x) (v : x.valid ≡ true) where
  pub length-entry_content : length (entry_content x) ≡ 8 + length x.value
  unfolding entry_content
  length-entry_content = omega arith

  entry_fields :
      (u16_at (entry_content x) 0 ≡ x.key)
      × (u32_at (entry_content x) 2 ≡ x.revision)
      × (u16_at (entry_content x) 6 ≡ length x.value)
      × (drop 8 (entry_content x) ≡ x.value)
  unfolding entry_content
  entry_fields = (
    word16 x.key s.key_word,
    word32 x.revision s.revision_word,
    word16 (length x.value) (omega (arith, s.value_size)),
    refl,
  )

  pub load_entry-content :
      (done : List DurableEntry) (n : ℕ)
      → AllValid durable done
      → find durable x.key done ≡ none
      → load_entry (entry_content x) (done ++ replicate (suc n) blank_entry)
        ≡ some ((done ++ x ∷ []) ++ replicate n blank_entry)
  unfolding load_entry
  load_entry-content done n all_valid fresh =
      let free = free_slot-compact durable blank_entry refl x.key n done all_valid fresh in
      let placed = set-length_append done blank_entry (replicate n blank_entry) x in
      let size : not (8 + length x.value == 8 + length x.value) ≡ false = ground arith in
      let f = entry_fields in
      rw (f.0, free, f.1, f.2, f.3, length-entry_content, take-length x.value)
        (ground (arith, placed, s.key_set, s.revision_set, s.value_size))

module _ (c : CursorEntry) (s : IsCursor c) (v : c.valid ≡ true) where
  length-cursor_content : length (cursor_content c) ≡ 10
  unfolding cursor_content
  length-cursor_content = refl

  cursor_fields :
      (u16_at (cursor_content c) 0 ≡ c.key)
      × (u32_at (cursor_content c) 2 ≡ c.outbound_acknowledged)
      × (u32_at (cursor_content c) 6 ≡ c.inbound_applied)
  unfolding cursor_content
  cursor_fields = (
    word16 c.key s.key_word,
    word32 c.outbound_acknowledged s.acknowledged_word,
    word32 c.inbound_applied s.applied_word,
  )

  pub load_cursor-content :
      (done : List CursorEntry) (n : ℕ)
      → AllValid by_cursor done
      → find by_cursor c.key done ≡ none
      → load_cursor (cursor_content c) (done ++ replicate (suc n) blank_cursor)
        ≡ some ((done ++ c ∷ []) ++ replicate n blank_cursor)
  unfolding load_cursor
  load_cursor-content done n all_valid fresh =
      let free = free_slot-compact by_cursor blank_cursor refl c.key n done all_valid fresh in
      let placed = set-length_append done blank_cursor (replicate n blank_cursor) c in
      let f = cursor_fields in
      rw (length-cursor_content, f.0, free, f.1, f.2) (ground (arith, placed, s.key_set))

module _ (c : CommandEntry) (s : IsCommand c) (v : c.valid ≡ true) where
  length-command_content : length (command_content c) ≡ 12 + length c.payload
  unfolding command_content
  length-command_content = omega arith

  command_fields :
      (u32_at (command_content c) 0 ≡ c.request_id)
      × (u32_at (command_content c) 4 ≡ c.stamp)
      × (u16_at (command_content c) 8 ≡ c.result)
      × (get_or (command_content c) 10 0 ≡ length c.payload)
      × (get_or (command_content c) 11 0 ≡ 0)
      × (drop 12 (command_content c) ≡ c.payload)
  unfolding command_content
  command_fields = (
    word32 c.request_id s.request_word,
    word32 c.stamp s.stamp_word,
    word16 c.result s.result_word,
    omega (arith, s.payload_size),
    refl,
    refl,
  )

  pub command_of-content : command_of (command_content c) ≡ c
  command_of-content =
      let f = command_fields in
      rw (f.0, f.1, f.2, f.3, f.5, take-length c.payload) (ground (arith, v))

  pub load_command-content :
      (done : List CommandEntry) (n : ℕ)
      → AllValid by_request done
      → find by_request c.request_id done ≡ none
      → load_command (command_content c) (done ++ replicate (suc n) blank_command)
        ≡ some ((done ++ c ∷ []) ++ replicate n blank_command)
  unfolding load_command
  load_command-content done n all_valid fresh =
      let free =
        free_slot-compact by_request blank_command refl c.request_id n done all_valid fresh in
      let placed = set-length_append done blank_command (replicate n blank_command) c in
      let f = command_fields in
      rw
        (
          length-command_content,
          f.3,
          f.4,
          f.0,
          free,
          f.0,
          f.1,
          f.2,
          f.3,
          f.5,
          take-length c.payload,
        )
        (ground (arith, placed, s.request_set, s.stamp_set, s.payload_size))
