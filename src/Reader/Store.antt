-- ===== src/Reader/Store.antt =====
-- The bookmarks on their store: Commit, Find, Save, Sync, ApplyRemote and ResetPeer of
-- components/note4_reader/note4_reader_bookmarks.cc. The store's answers are arguments; an operation
-- returns its result, the new state and the bytes that it asked the store to save.
use zectrix_note4_platform.Base.{
  Bool, List, Option, [], add32, false, if◌then◌else◌, le32, leb, length, ltb, none, not, some,
  take, true, u32_max, ℕ, ◌%◌, ◌&&◌, ◌++◌, ◌-◌, ◌==◌, ◌||◌, ◌∷◌,
}
use zectrix_note4_platform.Reader.{Bookmark, FontSize, State, same_id, put, small, large}
use zectrix_note4_platform.Reader.Codec.{encode_bookmark, until_nul, decode_bookmark, canonical}

abbrev pub bookmark_store_bytes : ℕ
bookmark_store_bytes = 800

abbrev bookmark_size : ℕ
bookmark_size = 78

pub record Bookmarks : Type 0 where
  pub state : State
  pub remote : Bookmark
  pub remote_revision : ℕ
  pub queued_revision : ℕ
  pub loaded : Bool

-- Bookmark::operator==
abbrev pub same_font : FontSize → FontSize → Bool
same_font small small = true
same_font large large = true
same_font _ _ = false

abbrev pub same_bookmark : Bookmark → Bookmark → Bool
same_bookmark a b =
    same_id a.book_id b.book_id
    && a.source_bytes == b.source_bytes
    && (a.position.chapter == b.position.chapter && a.position.offset == b.position.offset)
    && same_font a.font b.font
    && a.progress_per_mille == b.progress_per_mille

-- strcmp of the identities, and the size of the book.
abbrev pub find_in : List Bookmark → List ℕ → ℕ → Option Bookmark
find_in [] id source_bytes = none
find_in (e ∷ es) id source_bytes =
    if same_id id (until_nul e.book_id) && source_bytes == e.source_bytes
    then some e
    else find_in es id source_bytes

abbrev pub find : Bookmarks → List ℕ → ℕ → Option Bookmark
find b id source_bytes =
    if not b.loaded then none else find_in (take b.state.count b.state.entries) id source_bytes

infixl 5 ◌>>=◌
abbrev ◌>>=◌ {ℓ} : {A : Type ℓ} → Option (List ℕ) → (List ℕ → Option A) → Option A
none >>= f = none
some bytes >>= f = f bytes

-- The size and the bytes of a bookmark behind what the buffer has.
abbrev pub append : List ℕ → Bookmark → Option (List ℕ)
append bytes mark =
    if leb bookmark_store_bytes (length bytes)
    then none
    else encode_bookmark mark (bookmark_store_bytes - length bytes - 1) >>= λ encoded.
        some (bytes ++ (length encoded % 256 ∷ encoded))

abbrev pub append_all : List ℕ → List Bookmark → Option (List ℕ)
append_all bytes [] = some bytes
append_all bytes (e ∷ es) = do longer ← append bytes e; append_all longer es

unfoldable pub store_bytes : State → Option (List ℕ)
store_bytes s = do
  bytes ←
      append_all
        ((1 ∷ s.count % 256 ∷ 0 ∷ 0 ∷ []) ++ le32 s.outbound_revision ++ le32 s.inbound_revision)
        (take s.count s.entries)
  if s.outbound_revision == 0 then some bytes else append bytes s.outgoing

pub data Result : Type 0 where
  ok : Result
  pending : Result
  end_of_input : Result
  invalid : Result
  unsupported : Result
  too_large : Result
  io_error : Result
  no_memory : Result

abbrev pub is_ok : Result → Bool
is_ok ok = true
is_ok _ = false

abbrev pub is_end : Result → Bool
is_end end_of_input = true
is_end _ = false

pub record Outcome : Type 0 where
  pub result : Result
  pub after : Bookmarks
  pub asked : Option (List ℕ)

abbrev pub quiet : Result → Bookmarks → Outcome
quiet result b = record { result = result; after = b; asked = none }

-- The store's answer counts only if the state could be encoded.
unfoldable pub commit : Bookmarks → State → Result → Outcome
commit b candidate answer = elim (store_bytes candidate) [
  | none ↦ quiet invalid b
  | some bytes ↦ record {
    result = answer;
    after = if is_ok answer then record b { state = candidate } else b;
    asked = some bytes;
  }
]

-- What the store answers to `Receive`.
pub record Received : Type 0 where
  pub result : Result
  pub revision : ℕ
  pub bytes : List ℕ

-- The half of Sync behind the publication, with its result.
unfoldable pub receive : Bookmarks → Result → Received → Outcome
receive b sent received =
    if is_ok received.result && ltb b.state.inbound_revision received.revision
    then elim (decode_bookmark received.bytes) [
      | none ↦ quiet invalid b
      | some mark ↦ quiet sent (record b { remote = mark; remote_revision = received.revision })
    ]
    else if not (is_ok received.result) && not (is_end received.result) && is_ok sent
    then quiet received.result b
    else quiet sent b

-- A publication that the store takes.
unfoldable pub queue : Bookmarks → Result → Bookmarks
queue b answer =
    if is_ok answer then record b { queued_revision = b.state.outbound_revision } else b

-- `asked` is what the store is asked to publish here; Sync saves nothing.
unfoldable pub sync : Bookmarks → Result → Received → Outcome
sync b answer received =
    if not b.loaded
    then quiet invalid b
    else if ltb b.queued_revision b.state.outbound_revision
    then elim (encode_bookmark b.state.outgoing bookmark_size) [
      | none ↦ quiet invalid b
      | some bytes ↦ record (receive (queue b answer) answer received) { asked = some bytes }
    ]
    else receive b ok received

-- The state with one more position to be sent.
unfoldable pub published : State → Bookmark → State
published s mark =
    let candidate = put s mark in
    record candidate { outgoing = mark; outbound_revision = add32 candidate.outbound_revision 1 }

-- The bookmark as it is after an encoding.
unfoldable pub canonical_of : Bookmark → Option Bookmark
canonical_of mark = do bytes ← encode_bookmark mark bookmark_size; decode_bookmark bytes

unfoldable pub is_previous : Bookmarks → Bookmark → Bool
is_previous b mark = elim (find b (until_nul mark.book_id) mark.source_bytes) [
  | none ↦ false
  | some previous ↦ same_bookmark previous mark
]

unfoldable pub save : Bookmarks → Bookmark → Result → Outcome
save b mark answer = if not b.loaded then quiet invalid b else elim (canonical_of mark) [
  | none ↦ quiet invalid b
  | some canonical ↦
      if is_previous b canonical
      then quiet ok b
      else if b.state.outbound_revision == u32_max
      then quiet too_large b
      else commit b (published b.state canonical) answer
]

unfoldable pub apply_remote : Bookmarks → Result → Outcome
apply_remote b answer =
    if not b.loaded || b.remote_revision == 0
    then quiet invalid b
    else if b.state.outbound_revision == u32_max
    then quiet too_large b
    else let saved =
        commit b (record (published b.state b.remote) { inbound_revision = b.remote_revision })
          answer in
      if is_ok saved.result
      then record saved { after = record saved.after { remote_revision = 0 } }
      else saved

unfoldable pub reset_peer : Bookmarks → Result → Outcome
reset_peer b answer =
    if not b.loaded
    then quiet invalid b
    else let done =
        if b.state.inbound_revision == 0
        then quiet ok b
        else commit b (record b.state { inbound_revision = 0 }) answer in
      if is_ok done.result
      then record done { after = record done.after { remote_revision = 0; queued_revision = 0 } }
      else done

pub data Call : Type 0 where
  saves : Bookmark → Result → Call
  syncs : Result → Received → Call
  applies : Result → Call
  resets : Result → Call

abbrev pub step : Bookmarks → Call → Bookmarks
step b (saves mark answer) = (save b mark answer).after
step b (syncs answer received) = (sync b answer received).after
step b (applies answer) = (apply_remote b answer).after
step b (resets answer) = (reset_peer b answer).after

abbrev pub run : Bookmarks → List Call → Bookmarks
run b [] = b
run b (call ∷ calls) = run (step b call) calls
