-- ===== src/Sync/Reconciles/Verdict.antt =====
-- What the checks of `ReconcilePeerCursors` have established when they pass:
-- components/note4_companion/note4_sync_engine.cc.
use zectrix_note4_platform.Sync.Persist.{is_ok}
use zectrix_note4_platform.Base.{
  All, Bool, Bool-cases, List, [], any, arith, false, if◌then◌else◌, inl, inr, leb, length, not,
  refl, true, ℕ, ◌&&◌, ◌++◌, ◌+◌, ◌==◌, ◌||◌, ◌∷◌, ◌≡◌, ◌≤◌,
}
use zectrix_note4_platform.Sync.Table.{find}
use zectrix_note4_platform.Sync.State.{Engine, DurableEntry, CursorEntry, by_cursor}
use zectrix_note4_platform.Sync.Invariant.{acked_of, acked}
use zectrix_note4_platform.Sync.Cursors.{
  SyncCursor, cursors_from, cursors_of, find_cursor, check_peer, compatible, is_none,
}
use zectrix_note4_platform.Sync.Reconciles.Room.{news, count_valid, AreOther, AreDistinct}

length-cursors_from :
    (outbox : List DurableEntry) (cs : List CursorEntry)
    → length (cursors_from outbox cs) ≡ count_valid cs
unfolding cursors_from count_valid
length-cursors_from outbox [] = refl
length-cursors_from outbox (c ∷ cs) = ground (arith, length-cursors_from outbox cs)

pub length-cursors_of : (e : Engine) → length (cursors_of e) ≡ count_valid e.cursors
unfolding cursors_of
length-cursors_of e = length-cursors_from e.outbox e.cursors

find_cursor-acked :
    (k : ℕ) (outbox : List DurableEntry) (cs : List CursorEntry)
    → (find_cursor (cursors_from outbox cs) k).outbound_acknowledged
      ≡ acked_of (find by_cursor k cs)
unfolding find_cursor cursors_from find
find_cursor-acked k outbox [] = refl
find_cursor-acked k outbox (c ∷ cs) = ground (arith, find_cursor-acked k outbox cs)

compatible_forward :
    (e : Engine) (o : SyncCursor)
    → compatible (find_cursor (cursors_of e) o.key) o ≡ true
    → acked e o.key ≤ o.inbound_applied
unfolding compatible cursors_of
compatible_forward e o h = ground (arith, find_cursor-acked o.key e.outbox e.cursors)

-- No key that was seen before.
abbrev pub AreUnseen : List SyncCursor → List SyncCursor → Type 0
AreUnseen before = All (λ o. any (λ b. b.key == o.key) before ≡ false)

any-snoc :
    {A : Type 0} (p : A → Bool) (xs : List A) (y : A) → any p (xs ++ y ∷ []) ≡ any p xs || p y
any-snoc p [] y = ground arith
any-snoc p (x ∷ xs) y = ground (arith, any-snoc p xs y)

AreUnseen-snoc :
    (before : List SyncCursor) (o : SyncCursor) (os : List SyncCursor)
    → AreUnseen (before ++ o ∷ []) os
    → AreUnseen before os × AreOther o.key os
AreUnseen-snoc before o [] h = (tt, tt)
AreUnseen-snoc before o (x ∷ xs) h =
    let rest = AreUnseen-snoc before o xs h.1 in
    let both = any-snoc (λ b. b.key == x.key) before o in
    ((ground (arith, both, h.0), rest.0), (ground (arith, both, h.0), rest.1))

-- The peer has applied at least what it had acknowledged to us.
abbrev pub AreForward : Engine → List SyncCursor → Type 0
AreForward e = All (λ o. acked e o.key ≤ o.inbound_applied)

pub check_peer-passed :
    (e : Engine) (os before : List SyncCursor) (keys : ℕ)
    → is_ok (check_peer e before os keys).0 ≡ true
    → ((check_peer e before os keys).1 ≡ keys + news e.cursors os)
      × AreUnseen before os
      × AreDistinct os
      × AreForward e os
unfolding check_peer news
check_peer-passed e [] before keys h = (omega arith, tt, tt, tt)
check_peer-passed e (o ∷ os) before keys h =
    let known = find by_cursor o.key e.cursors in
    let keys' : ℕ = if is_none known then keys + 1 else keys in
    let bad : Bool =
      o.key == 0
      || (not (o.pending_revision == 0) && leb o.pending_revision o.outbound_acknowledged)
      || any (λ b. b.key == o.key) before in
    let fits : Bool = compatible (find_cursor (cursors_of e) o.key) o in
    elim (Bool-cases bad) [
      | inl refused ↦ absurd (let no_way : false ≡ true = rw refused at h in cc)
      | inr good ↦ elim (Bool-cases fits) [
        | inr apart ↦ absurd (let no_way : false ≡ true = rw (good, apart) at h in cc)
        | inl agreed ↦
            let (count, unseen, distinct, forward) =
              check_peer-passed e os (before ++ o ∷ []) keys' (rw (good, agreed) at h) in
            let split = AreUnseen-snoc before o os unseen in
            rw (good, agreed)
              (
                ground (arith, count),
                (ground (arith, good), split.0),
                (split.1, distinct),
                (compatible_forward e o agreed, forward),
              )
      ]
    ]
