-- ===== src/Sync/Reconciles/Room.antt =====
-- There is a slot for every key that `ReconcilePeerCursors` takes over:
-- components/note4_companion/note4_sync_engine.cc.
use zectrix_note4_platform.Base.{
  All, List, [], arith, false, if◌then◌else◌, length, none, not, refl, set, some, suc, true, ℕ, ◌+◌,
  ◌==◌, ◌∷◌, ◌≡◌,
}
use zectrix_note4_platform.Sync.Table.{find, slot, index_of, holds, At, match, free, later}
use zectrix_note4_platform.Sync.State.{CursorEntry, by_cursor}
use zectrix_note4_platform.Sync.Cursors.{SyncCursor, is_none}

unfoldable pub count_valid : List CursorEntry → ℕ
count_valid [] = 0
count_valid (c ∷ cs) = if c.valid then suc (count_valid cs) else count_valid cs

index-valid :
    (cs : List CursorEntry) → index_of (λ c. not c.valid) cs ≡ none → count_valid cs ≡ length cs
unfolding index_of count_valid
index-valid [] h = refl
index-valid (c ∷ cs) h = ground (arith, index-valid cs)

-- Without a slot the table is full.
pub slot-full :
    (k : ℕ) (cs : List CursorEntry) → slot by_cursor k cs ≡ none → count_valid cs ≡ length cs
unfolding slot
slot-full k cs h = index-valid cs (ground arith)

-- A key that is found has a slot; a new one takes a free slot.
pub count_valid-set :
    (k : ℕ) (c : CursorEntry) (cs : List CursorEntry) (i : ℕ)
    → At by_cursor k cs i
    → holds by_cursor k c ≡ true
    → count_valid (set cs i c)
      ≡ (if is_none (find by_cursor k cs) then suc (count_valid cs) else count_valid cs)
unfolding find count_valid
count_valid-set k c _ _ (match y ys hit) h = ground arith
count_valid-set k c _ _ (free y ys empty gone) h = ground arith
count_valid-set k c _ _ (later y ys i miss rest) h = ground (arith, count_valid-set k c ys i rest)

-- How many keys of the peer's cursors are new.
unfoldable pub news : List CursorEntry → List SyncCursor → ℕ
news cs [] = 0
news cs (o ∷ os) = (if is_none (find by_cursor o.key cs) then 1 else 0) + news cs os

abbrev pub AreOther : ℕ → List SyncCursor → Type 0
AreOther k = All (λ o. (k == o.key) ≡ false)

abbrev pub AreDistinct : List SyncCursor → Type 0
AreDistinct [] = Unit
AreDistinct (o ∷ os) = AreOther o.key os × AreDistinct os

-- Taking one key over leaves the others as new as they were.
pub news-set :
    (k : ℕ) (c : CursorEntry) (cs cs' : List CursorEntry) (os : List SyncCursor)
    → ((j : ℕ) → find by_cursor j cs' ≡ (if k == j then some c else find by_cursor j cs))
    → AreOther k os
    → news cs' os ≡ news cs os
unfolding news
news-set k c cs cs' [] f h = refl
news-set k c cs cs' (o ∷ os) f h = ground (arith, f o.key, h.0, news-set k c cs cs' os f h.1)
