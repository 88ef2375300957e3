-- ===== src/Reader/Load.antt =====
-- The bookmarks from their store: Bookmarks::Load of
-- components/note4_reader/note4_reader_bookmarks.cc.
use zectrix_note4_platform.Base.{
  Bool, List, Option, [], any, drop, if◌then◌else◌, leb, length, ltb, none, not, replicate, some,
  suc, take, true, zero, ℕ, ◌&&◌, ◌++◌, ◌-◌, ◌==◌, ◌∷◌,
}
use zectrix_note4_platform.Reader.{Bookmark, FontSize, State, capacity, same_id}
use zectrix_note4_platform.Reader.Codec.{decode_bookmark, byte_at, u32_at}
use zectrix_note4_platform.Reader.Store.{
  Bookmarks, Result, is_ok, is_end, bookmark_store_bytes, Outcome, quiet,
}

abbrev pub blank : Bookmark
blank = record {
  book_id = replicate 64 0;
  source_bytes = 0;
  position = record { offset = 0; chapter = 0 };
  font = FontSize.small;
  progress_per_mille = 0;
}

-- What the store answers to `Load`.
pub record Stored : Type 0 where
  pub result : Result
  pub bytes : List ℕ

-- The bookmark at the offset and the bytes behind it.
abbrev pub take_mark : List ℕ → Option (Bookmark × List ℕ)
take_mark [] = none
take_mark (size ∷ rest) =
    if ltb (length rest) size then none else elim (decode_bookmark (take size rest)) [
      | none ↦ none
      | some mark ↦ some (mark, drop size rest)
    ]

-- The loop over the entries; no two may be of the same book.
abbrev pub take_entries : ℕ → List Bookmark → List ℕ → Option (List Bookmark × List ℕ)
take_entries zero entries bytes = some (entries, bytes)
take_entries (suc left) entries bytes = elim (take_mark bytes) [
  | none ↦ none
  | some (mark, rest) ↦
      if any (λ e. same_id mark.book_id e.book_id) entries
      then none
      else take_entries left (entries ++ (mark ∷ [])) rest
]

-- The bookmark to be sent, if there is one; nothing may stand behind it.
abbrev pub take_outgoing : ℕ → List ℕ → Option Bookmark
take_outgoing zero [] = some blank
take_outgoing zero (b ∷ bs) = none
take_outgoing (suc revision) bytes = elim (take_mark bytes) [
  | none ↦ none
  | some (mark, []) ↦ some mark
  | some (mark, b ∷ bs) ↦ none
]

abbrev pub is_header : List ℕ → Bool
is_header bytes =
    not (ltb (length bytes) 12)
    && not (ltb bookmark_store_bytes (length bytes))
    && byte_at bytes 0 == 1
    && leb (byte_at bytes 1) capacity
    && byte_at bytes 2 == 0
    && byte_at bytes 3 == 0

unfoldable pub state_of : List ℕ → Option State
state_of bytes =
    let count = byte_at bytes 1 in
    let outbound_revision = u32_at bytes 4 in
    if not (is_header bytes) then none else elim (take_entries count [] (drop 12 bytes)) [
      | none ↦ none
      | some (entries, rest) ↦ elim (take_outgoing outbound_revision rest) [
        | none ↦ none
        | some outgoing ↦ some (record {
          entries = entries ++ replicate (capacity - count) blank;
          outgoing = outgoing;
          count = count;
          outbound_revision = outbound_revision;
          inbound_revision = u32_at bytes 8;
        })
      ]
    ]

unfoldable pub load : Bookmarks → Stored → Outcome
load b read =
    if b.loaded
    then quiet Result.ok b
    else if is_end read.result
    then quiet Result.ok (record b { loaded = true })
    else if not (is_ok read.result)
    then quiet read.result b
    else elim (state_of read.bytes) [
      | none ↦ quiet Result.invalid b
      | some state ↦ quiet Result.ok (record b { state = state; loaded = true })
    ]
