-- ===== src/Reader/Tests.antt =====
-- Runs of Bookmarks and of the encoding of components/note4_reader/note4_reader_bookmarks.cc.
use zectrix_note4_platform.Base.{
  List, [], arith, false, get_or, length, map, none, refl, replicate, some, true, ℕ, ◌++◌, ◌∷◌, ◌≡◌,
  ◌≤◌,
}
use zectrix_note4_platform.Reader.{put, id_index, Bookmark, State, FontSize}
use zectrix_note4_platform.Reader.Recent.{marks}
use zectrix_note4_platform.Reader.Codec.{
  encode_bookmark, valid_id, bookmark_bytes, decode_bookmark, IsBookmark, canonical,
  encode-decode_bookmark,
}
use zectrix_note4_platform.Reader.Store.{
  Bookmarks, Result, Call, run, saves, applies, store_bytes, commit, published, canonical_of,
  is_previous, save,
}
use zectrix_note4_platform.Reader.Load.{load, state_of}
use zectrix_note4_platform.Reader.History.{IsKept, Continues, run-Continues}
use zectrix_note4_platform.Reader.Put.{IsSound, put_all, recent_of, put_all-recent_of}

abbrev mark_of : ℕ → ℕ → Bookmark
mark_of book offset = record {
  book_id = book ∷ replicate 63 0;
  source_bytes = 9000;
  position = record { offset = offset; chapter = 0 };
  font = FontSize.small;
  progress_per_mille = 10;
}

-- Three books, in an array of eight.
abbrev three : State
three = record {
  entries = mark_of 65 100 ∷ mark_of 66 200 ∷ mark_of 67 300 ∷ replicate 5 (mark_of 0 0);
  outgoing = mark_of 0 0;
  count = 3;
  outbound_revision = 3;
  inbound_revision = 0;
}

-- Eight books: the array is full.
abbrev eight : State
eight = record three {
  entries = map (λ b. mark_of b 0) (65 ∷ 66 ∷ 67 ∷ 68 ∷ 69 ∷ 70 ∷ 71 ∷ 72 ∷ []);
  count = 8;
}

three-IsSound : IsSound three
unfolding IsSound marks
three-IsSound = (refl, omega arith, ((refl, (refl, tt)), ((refl, tt), (tt, tt))))

reading_on :
    marks (put three (mark_of 66 250)) ≡ mark_of 66 250 ∷ mark_of 65 100 ∷ mark_of 67 300 ∷ []
unfolding marks put id_index
reading_on = refl

ninth_book :
    map (λ e. get_or e.book_id 0 0) (marks (put eight (mark_of 73 1)))
    ≡ 73 ∷ 65 ∷ 66 ∷ 67 ∷ 68 ∷ 69 ∷ 70 ∷ 71 ∷ []
unfolding marks put id_index
ninth_book = refl

put_all-recent_of_example :
    IsSound (put_all three (mark_of 67 310 ∷ mark_of 68 5 ∷ []))
    × (marks (put_all three (mark_of 67 310 ∷ mark_of 68 5 ∷ []))
        ≡ recent_of (mark_of 67 310 ∷ mark_of 68 5 ∷ []) (marks three))
put_all-recent_of_example =
    put_all-recent_of three (mark_of 67 310 ∷ mark_of 68 5 ∷ []) three-IsSound

-- One.txt, read to byte 1000.
abbrev one_txt : List ℕ
one_txt = 79 ∷ 110 ∷ 101 ∷ 46 ∷ 116 ∷ 120 ∷ 116 ∷ []

abbrev reading : Bookmark
reading = record (mark_of 0 1000) { book_id = one_txt ++ replicate 57 0 }

reading-IsBookmark : IsBookmark reading
reading-IsBookmark = record {
  offset_word = omega arith;
  chapter_word = omega arith;
  bytes_word = omega arith;
  progress_word = omega arith;
}

encode-decode_bookmark_example :
    (length (bookmark_bytes reading one_txt) ≤ 78)
    × (length (bookmark_bytes reading one_txt) ≤ 78)
    × (decode_bookmark (bookmark_bytes reading one_txt) ≡ some (canonical reading))
unfolding encode_bookmark valid_id
encode-decode_bookmark_example =
    encode-decode_bookmark reading 78 (bookmark_bytes reading one_txt) reading-IsBookmark refl

parent_folder : encode_bookmark (record reading { book_id = 46 ∷ 46 ∷ replicate 62 0 }) 78 ≡ none
unfolding encode_bookmark valid_id
parent_folder = refl

abbrev kept : Bookmarks
kept = record {
  state = three;
  remote = reading;
  remote_revision = 4;
  queued_revision = 2;
  loaded = true;
}

kept-IsKept : IsKept kept
kept-IsKept = record { sound = three-IsSound; sent = omega arith; word = omega arith }

-- A save that the store takes, one that it refuses, and the phone's position applied.
abbrev calls : List Call
calls = saves reading Result.ok ∷ saves (mark_of 70 1) Result.io_error ∷ applies Result.ok ∷ []

run-Continues_example : Continues kept (run kept calls)
run-Continues_example = run-Continues kept calls kept-IsKept

-- What a save asks the store to keep is read back at the next start.
abbrev saved_bytes : List ℕ
saved_bytes =
    elim (save (record kept { state = record three { count = 0 } }) reading Result.ok).asked [
      | none ↦ []
      | some bytes ↦ bytes
    ]

saved_and_loaded :
    map
      (λ e. e.position.offset)
      (marks
        (load
          (record kept { loaded = false })
          (record { result = Result.ok; bytes = saved_bytes })).after.state)
    ≡ 1000 ∷ []
unfolding save load state_of decode_bookmark encode_bookmark valid_id marks put id_index
    canonical_of is_previous published commit store_bytes
saved_and_loaded = refl
