-- ===== src/Sync/Persist.antt =====
-- `Persist`: the whole state as one record with a header and a CRC.
use zectrix_note4_platform.Crc.{crc32}
use zectrix_note4_platform.Base.{
  Bool, List, Option, [], add32, drop, false, if◌then◌else◌, le16, le32, length, ltb, none, not,
  replicate, some, true, ℕ, ◌%◌, ◌++◌, ◌+◌, ◌-◌, ◌||◌, ◌∷◌,
}
use zectrix_note4_platform.Sync.State.{
  ok, store_error, not_initialized, SyncStatus, Engine, DurableEntry, CursorEntry, CommandEntry,
  maximum_record_size,
}

abbrev pub store_magic : ℕ
store_magic = 0x4e59_535a

abbrev pub store_version : ℕ
store_version = 2

abbrev pub store_header_size : ℕ
store_header_size = 16

abbrev pub store_crc_size : ℕ
store_crc_size = 4

-- `kOutbox`, `kCursor`, `kCommand` and `kInbox`.
abbrev pub outbox_type : ℕ
outbox_type = 1

abbrev pub cursor_type : ℕ
cursor_type = 2

abbrev pub command_type : ℕ
command_type = 3

abbrev pub inbox_type : ℕ
inbox_type = 4

-- `AddRecordHeader` and the content that is written behind it. `output` is the record up to the
-- offset; `none` is no room.
unfoldable pub add_record : ℕ → List ℕ → List ℕ → Option (List ℕ)
add_record type content output =
    if ltb 65535 (length content)
      || ltb maximum_record_size (length output)
      || ltb (maximum_record_size - length output) (4 + length content)
    then none
    else some (output ++ type ∷ 0 ∷ (le16 (length content) ++ content))

unfoldable pub entry_content : DurableEntry → List ℕ
entry_content e = le16 e.key ++ le32 e.revision ++ le16 (length e.value) ++ e.value

unfoldable pub cursor_content : CursorEntry → List ℕ
cursor_content c = le16 c.key ++ le32 c.outbound_acknowledged ++ le32 c.inbound_applied

unfoldable pub command_content : CommandEntry → List ℕ
command_content c =
    le32 c.request_id ++ le32 c.stamp ++ le16 c.result ++ length c.payload % 256 ∷ 0 ∷ c.payload

-- A loop over the valid entries of one array.
unfoldable pub add_records :
    {A : Type 0} → (A → Bool) → ℕ → (A → List ℕ) → List A → List ℕ → Option (List ℕ)
add_records valid type content [] output = some output
add_records valid type content (x ∷ xs) output = elim (valid x) [
  | false ↦ add_records valid type content xs output
  | true ↦ elim (add_record type (content x) output) [
    | none ↦ none
    | some longer ↦ add_records valid type content xs longer
  ]
]

infixl 5 ◌>>=◌
abbrev pub ◌>>=◌ : Option (List ℕ) → (List ℕ → Option (List ℕ)) → Option (List ℕ)
none >>= f = none
some bs >>= f = f bs

-- The body: all outbox entries, then the inbox, the cursors and the commands. It starts behind the
-- header's room.
unfoldable pub write_body : Engine → Option (List ℕ)
write_body e = do
  outboxes ←
      add_records (λ x. x.valid) outbox_type entry_content e.outbox (replicate store_header_size 0)
  inboxes ← add_records (λ x. x.valid) inbox_type entry_content e.inbox outboxes
  pointers ← add_records (λ x. x.valid) cursor_type cursor_content e.cursors inboxes
  add_records (λ x. x.valid) command_type command_content e.commands pointers

unfoldable pub store_header : ℕ → ℕ → List ℕ
store_header generation body_size =
    le32 store_magic
    ++ le16 store_version
    ++ le16 store_header_size
    ++ le32 generation
    ++ le16 body_size
    ++ le16 0

abbrev pub with_crc : List ℕ → List ℕ
with_crc bs = bs ++ le32 (crc32 bs 0)

unfoldable pub finish_record : ℕ → List ℕ → Option (List ℕ)
finish_record generation body =
    if ltb 65535 (length body - store_header_size)
      || ltb (maximum_record_size - length body) store_crc_size
    then none
    else some (
        with_crc (
          store_header generation (length body - store_header_size) ++ drop store_header_size body))

-- The whole record, `none` where it would not fit.
unfoldable pub write_record : Engine → Option (List ℕ)
write_record e = write_body e >>= finish_record (add32 e.generation 1)

-- `save` is what the store answers to the bytes that it is given.
unfoldable pub persist : (List ℕ → Bool) → Engine → SyncStatus × Engine
persist save e = if not e.has_store then (not_initialized, e) else elim (write_record e) [
  | none ↦ (store_error, e)
  | some record' ↦
      if save record'
      then (ok, record e { generation = add32 e.generation 1 })
      else (store_error, e)
]

abbrev pub Saved : Type 0
Saved = SyncStatus × Engine

abbrev pub is_ok : SyncStatus → Bool
is_ok ok = true
is_ok _ = false

-- Behind `Persist` on a changed state: on any failure the old entries are put back.
abbrev pub keep_or : (Engine → Engine) → Saved → Saved
keep_or restore (status, e) = (status, if is_ok status then e else restore e)
