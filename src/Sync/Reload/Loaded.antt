-- ===== src/Sync/Reload/Loaded.antt =====
-- The bytes of the four tables, read by the loop of `LoadState`:
-- components/note4_companion/note4_sync_engine.cc.
use zectrix_note4_platform.Sync.Reload.Tables.{load_records-table, AreNew}
use zectrix_note4_platform.Sync.Reload.Written.{
  inbox_bytes, cursor_bytes, command_bytes, body_bytes,
}
use zectrix_note4_platform.Base.{
  All, List, Option, [], ap, arith, length, length-append, max, none, refl, replicate, some, suc,
  sym, true, u32_mod, ℕ, ◌++◌, ◌+◌, ◌-◌, ◌<◌, ◌∙◌, ◌∷◌, ◌≡◌,
}
use zectrix_note4_platform.Sync.Invariant.{IsSound}
use zectrix_note4_platform.Sync.Table.{find, Keyed, Unique}
use zectrix_note4_platform.Sync.State.{
  key_capacity, command_capacity, DurableEntry, CursorEntry, CommandEntry, blank_entry,
  blank_cursor, blank_command, durable, Engine, reset, by_cursor, by_request,
}
use zectrix_note4_platform.Sync.Persist.{
  entry_content, outbox_type, cursor_type, command_type, inbox_type, cursor_content,
  command_content,
}
use zectrix_note4_platform.Sync.Load.{
  Loading, load_entry, with_table, load_one, load_cursor, command_of, load_command, load_records,
  with_store,
}
use zectrix_note4_platform.Sync.Reload.Compact.{AllValid, kept}
use zectrix_note4_platform.Sync.Reload.Records.{
  IsStored, load_entry-content, IsCursor, IsCommand, load_cursor-content, command_of-content,
  load_command-content,
}

-- The entries so far, and free slots behind them.
abbrev pub padded : {A : Type 0} → ℕ → A → List A → List A
padded cap blank done = done ++ replicate (cap - length done) blank

room_left :
    {A : Type 0} (cap : ℕ) (done : List A)
    → length done < cap
    → cap - length done ≡ suc (cap - suc (length done))
room_left cap done h = omega arith

length-snoc : {A : Type 0} (done : List A) (x : A) → length (done ++ x ∷ []) ≡ suc (length done)
length-snoc done x = omega (arith, length-append done (x ∷ []))

-- One more entry: a slot less.
padded_step :
    {A : Type 0} (load : List A → Option (List A)) (cap : ℕ) (blank : A) (done : List A) (x : A)
    → length done < cap
    → ((n : ℕ)
        → load (done ++ replicate (suc n) blank) ≡ some ((done ++ x ∷ []) ++ replicate n blank))
    → load (padded cap blank done) ≡ some (padded cap blank (done ++ x ∷ []))
padded_step load cap blank done x h step =
    ap (λ (k : ℕ). load (done ++ replicate k blank)) (room_left cap done h)
    ∙ step (cap - suc (length done))
    ∙ ap (λ (k : ℕ). some ((done ++ x ∷ []) ++ replicate (cap - k) blank))
        (sym (length-snoc done x))

abbrev outbox_at : Loading → List DurableEntry → Loading
outbox_at l done = record l {
  engine = record l.engine { outbox = padded key_capacity blank_entry done };
}

abbrev inbox_at : Loading → List DurableEntry → Loading
inbox_at l done = record l {
  engine = record l.engine { inbox = padded key_capacity blank_entry done };
}

abbrev cursors_at : Loading → List CursorEntry → Loading
cursors_at l done = record l {
  engine = record l.engine { cursors = padded key_capacity blank_cursor done };
}

abbrev pub max_stamp : List CommandEntry → ℕ
max_stamp [] = 0
max_stamp (c ∷ cs) = max c.stamp (max_stamp cs)

max_stamp-snoc :
    (done : List CommandEntry) (c : CommandEntry)
    → max (max_stamp done) c.stamp ≡ max_stamp (done ++ c ∷ [])
max_stamp-snoc [] c = omega arith
max_stamp-snoc (d ∷ done) c = omega (arith, max_stamp-snoc done c)

abbrev commands_at : Loading → List CommandEntry → Loading
commands_at l done = record {
  engine = record l.engine { commands = padded command_capacity blank_command done };
  maximum_stamp = max_stamp done;
}

module _ (l : Loading) where
  outbox-step :
      (done : List DurableEntry) (x : DurableEntry)
      → AllValid durable done
      → length done < key_capacity
      → find durable x.key done ≡ none
      → x.valid ≡ true
      → IsStored x
      → load_one 2 outbox_type (entry_content x) (outbox_at l done)
        ≡ some (outbox_at l (done ++ x ∷ []))
  unfolding load_one
  outbox-step done x v h new taken s =
      ap (with_table (λ t. record l { engine = record l.engine { outbox = t } })) (
        padded_step (load_entry (entry_content x)) key_capacity blank_entry done x h
          (λ n. load_entry-content x s taken done n v new))

  inbox-step :
      (done : List DurableEntry) (x : DurableEntry)
      → AllValid durable done
      → length done < key_capacity
      → find durable x.key done ≡ none
      → x.valid ≡ true
      → IsStored x
      → load_one 2 inbox_type (entry_content x) (inbox_at l done)
        ≡ some (inbox_at l (done ++ x ∷ []))
  unfolding load_one
  inbox-step done x v h new taken s =
      ap (with_table (λ t. record l { engine = record l.engine { inbox = t } })) (
        padded_step (load_entry (entry_content x)) key_capacity blank_entry done x h
          (λ n. load_entry-content x s taken done n v new))

  cursors-step :
      (done : List CursorEntry) (c : CursorEntry)
      → AllValid by_cursor done
      → length done < key_capacity
      → find by_cursor c.key done ≡ none
      → c.valid ≡ true
      → IsCursor c
      → load_one 2 cursor_type (cursor_content c) (cursors_at l done)
        ≡ some (cursors_at l (done ++ c ∷ []))
  unfolding load_one
  cursors-step done c v h new taken s =
      ap (with_table (λ t. record l { engine = record l.engine { cursors = t } })) (
        padded_step (load_cursor (cursor_content c)) key_capacity blank_cursor done c h
          (λ n. load_cursor-content c s taken done n v new))

  commands-step :
      (done : List CommandEntry) (c : CommandEntry)
      → AllValid by_request done
      → length done < command_capacity
      → find by_request c.request_id done ≡ none
      → c.valid ≡ true
      → IsCommand c
      → load_one 2 command_type (command_content c) (commands_at l done)
        ≡ some (commands_at l (done ++ c ∷ []))
  unfolding load_one
  commands-step done c v h new taken s =
      let with_stamp : ℕ → List CommandEntry → Loading =
        λ m t. record { engine = record l.engine { commands = t }; maximum_stamp = m } in
      ap (with_table (with_stamp (max (max_stamp done) (command_of (command_content c)).stamp))) (
        padded_step (load_command (command_content c)) command_capacity blank_command done c h
          (λ n. load_command-content c s taken done n v new))
      ∙ ap
          (λ (x : CommandEntry). some (
            with_stamp (max (max_stamp done) x.stamp)
              (padded command_capacity blank_command (done ++ c ∷ []))))
          (command_of-content c s taken)
      ∙ ap (λ (m : ℕ). some (with_stamp m (padded command_capacity blank_command (done ++ c ∷ []))))
          (max_stamp-snoc done c)

-- What the fields of a running engine satisfy by their types and by the checks of its operations,
-- for its valid entries.
pub record IsStorable (e : Engine) : Type 0 where
  pub outbox_stored : All (λ x. x.valid ≡ true → IsStored x) e.outbox
  pub inbox_stored : All (λ x. x.valid ≡ true → IsStored x) e.inbox
  pub cursors_stored : All (λ c. c.valid ≡ true → IsCursor c) e.cursors
  pub commands_stored : All (λ c. c.valid ≡ true → IsCommand c) e.commands
  pub commands_size : length e.commands ≡ command_capacity
  pub command_keys : Unique by_request e.commands
  pub generation_word : e.generation < u32_mod

length-cursor : (c : CursorEntry) → IsCursor c → length (cursor_content c) < 65536
unfolding cursor_content
length-cursor c s = omega arith

length-command : (c : CommandEntry) → IsCommand c → length (command_content c) < 65536
unfolding command_content
length-command c s = omega (arith, s.payload_size)

length-entry : (x : DurableEntry) → IsStored x → length (entry_content x) < 65536
unfolding entry_content
length-entry x s = omega (arith, s.value_size)

AreNew-empty : {A : Type 0} (t : Keyed A) (xs : List A) → AreNew t [] xs
unfolding find
AreNew-empty t [] = tt
AreNew-empty t (x ∷ xs) = ((λ v. refl), AreNew-empty t xs)

-- The tables after the loop, from a fresh engine.
abbrev pub loaded : Engine → Loading → Loading
loaded e l = record {
  engine = record l.engine {
    outbox = padded key_capacity blank_entry (kept durable e.outbox);
    inbox = padded key_capacity blank_entry (kept durable e.inbox);
    cursors = padded key_capacity blank_cursor (kept by_cursor e.cursors);
    commands = padded command_capacity blank_command (kept by_request e.commands);
  };
  maximum_stamp = max_stamp (kept by_request e.commands);
}

abbrev pub record_count : Engine → ℕ
record_count e =
    length (kept durable e.outbox)
    + (length (kept durable e.inbox)
        + (length (kept by_cursor e.cursors) + (length (kept by_request e.commands) + 0)))

abbrev pub fresh : ℕ → Loading
fresh generation = record {
  engine = record with_store { generation = generation };
  maximum_stamp = 0;
}

module _ (e : Engine) (sound : IsSound e) (s : IsStorable e) (generation : ℕ) where
  pub load_records-body :
      load_records (record_count e) 2 (body_bytes e) (fresh generation)
      ≡ some (loaded e (fresh generation))
  unfolding load_records reset
  load_records-body =
      let l0 = fresh generation in
      let l1 = outbox_at l0 (kept durable e.outbox) in
      let l2 = inbox_at l1 (kept durable e.inbox) in
      let l3 = cursors_at l2 (kept by_cursor e.cursors) in
      let n4 = length (kept by_request e.commands) + 0 in
      let n3 = length (kept by_cursor e.cursors) + n4 in
      let n2 = length (kept durable e.inbox) + n3 in
      let b4 = command_bytes e ++ [] in
      let b3 = cursor_bytes e ++ b4 in
      let b2 = inbox_bytes e ++ b3 in
      load_records-table durable 2 outbox_type key_capacity entry_content (outbox_at l0) IsStored
        length-entry (outbox-step l0) e.outbox [] n2 b2 tt (omega (arith, sound.outbox_size))
        sound.outbox_keys (AreNew-empty durable e.outbox) s.outbox_stored
      ∙ load_records-table durable 2 inbox_type key_capacity entry_content (inbox_at l1) IsStored
          length-entry (inbox-step l1) e.inbox [] n3 b3 tt (omega (arith, sound.inbox_size))
          sound.inbox_keys (AreNew-empty durable e.inbox) s.inbox_stored
      ∙ load_records-table by_cursor 2 cursor_type key_capacity cursor_content (cursors_at l2)
          IsCursor length-cursor (cursors-step l2) e.cursors [] n4 b4 tt
          (omega (arith, sound.cursors_size)) sound.cursor_keys (AreNew-empty by_cursor e.cursors)
          s.cursors_stored
      ∙ load_records-table by_request 2 command_type command_capacity command_content
          (commands_at l3) IsCommand length-command (commands-step l3) e.commands [] 0 [] tt
          (omega (arith, s.commands_size)) s.command_keys (AreNew-empty by_request e.commands)
          s.commands_stored
