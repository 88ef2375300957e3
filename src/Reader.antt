-- ===== src/Reader.antt =====
-- The reader's saved positions: the bookmarks of the last books, most recent first.
-- components/note4_reader/note4_reader_bookmarks.cc and its header.
pub mod Recent
pub mod Put
pub mod Codec
pub mod Store
pub mod Load
pub mod History
pub mod Tests
use zectrix_note4_platform.Base.{
  Bool, List, [], false, if◌then◌else◌, ltb, min, set, suc, true, zero, ℕ, ◌&&◌, ◌+◌, ◌-◌, ◌==◌,
  ◌∷◌,
}

abbrev pub capacity : ℕ
capacity = 8

pub data FontSize : Type 0 where
  small : FontSize
  large : FontSize

pub record Position : Type 0 where
  offset : ℕ
  chapter : ℕ

-- The identity is the array of 64 characters, padding included.
pub record Bookmark : Type 0 where
  book_id : List ℕ
  source_bytes : ℕ
  position : Position
  font : FontSize
  progress_per_mille : ℕ

-- `entries` is the array of eight; the bookmarks kept are its first `count`.
pub record State : Type 0 where
  entries : List Bookmark
  outgoing : Bookmark
  count : ℕ
  outbound_revision : ℕ
  inbound_revision : ℕ

-- `==` of two arrays.
abbrev pub same_id : List ℕ → List ℕ → Bool
same_id [] [] = true
same_id (a ∷ as') (b ∷ bs) = a == b && same_id as' bs
same_id _ _ = false

-- while (index < count && entries[index].book_id != mark.book_id) ++index;
unfoldable pub id_index : ℕ → List Bookmark → List ℕ → ℕ
id_index zero es id = 0
id_index (suc left) [] id = 0
id_index (suc left) (e ∷ es) id =
    let rest = id_index left es id in if same_id e.book_id id then 0 else suc rest

-- entries[i + 1] = entries[i];
abbrev pub copy_up : ℕ → List Bookmark → List Bookmark
copy_up zero (a ∷ b ∷ es) = a ∷ a ∷ es
copy_up (suc i) (a ∷ es) = a ∷ copy_up i es
copy_up _ es = es

-- for (; index; --index) entries[index] = entries[index - 1];
abbrev pub shift : ℕ → List Bookmark → List Bookmark
shift zero es = es
shift (suc i) es = shift i (copy_up i es)

unfoldable pub put : State → Bookmark → State
put s mark =
    let index = id_index s.count s.entries mark.book_id in
    record s {
      entries = set (shift (min index (capacity - 1)) s.entries) 0 mark;
      count = if index == s.count && ltb s.count capacity then s.count + 1 else s.count;
    }
