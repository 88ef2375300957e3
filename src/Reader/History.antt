-- ===== src/Reader/History.antt =====
-- Any calls on the bookmarks, with any answers of the store:
-- components/note4_reader/note4_reader_bookmarks.cc.
use zectrix_note4_platform.Reader.Codec.{encode_bookmark, decode_bookmark}
use zectrix_note4_platform.Base.{
  Bool-cases, List, Option-cases, [], add32, arith, false, if◌then◌else◌, inl, inr, ltb, not,
  u32_max, ℕ, ◌&&◌, ◌+◌, ◌==◌, ◌||◌, ◌∷◌, ◌≡◌, ◌≤◌,
}
use zectrix_note4_platform.Reader.{Bookmark, State, put}
use zectrix_note4_platform.Reader.Recent.{marks}
use zectrix_note4_platform.Reader.Put.{IsSound, put-IsSound}
use zectrix_note4_platform.Reader.Store.{
  queue, Received, Outcome, quiet, ok, receive, Call, run, published, commit, store_bytes, is_ok,
  Result, Bookmarks, store_bytes, Result, is_ok, commit, published, Received, receive, sync,
  canonical_of, is_previous, save, apply_remote, reset_peer, is_end, step, saves, syncs, applies,
  resets,
}

-- The array is sound, and the revision to be sent is a word that is not below the one sent.
pub record IsKept (b : Bookmarks) : Type 0 where
  pub sound : IsSound b.state
  pub sent : b.queued_revision ≤ b.state.outbound_revision
  pub word : b.state.outbound_revision ≤ u32_max

abbrev pub Continues : Bookmarks → Bookmarks → Type 0
Continues b after = IsKept after × (b.state.outbound_revision ≤ after.state.outbound_revision)

same-Continues : (b : Bookmarks) → IsKept b → Continues b b
same-Continues b kept = (kept, omega arith)

commit-Continues :
    (b : Bookmarks) (candidate : State) (answer : Result)
    → IsKept b
    → Continues b (record b { state = candidate })
    → Continues b (commit b candidate answer).after
unfolding commit
commit-Continues b candidate answer kept next = elim (Option-cases (store_bytes candidate)) [
  | inl failed ↦ rw (commit, failed) (same-Continues b kept)
  | inr (bytes, encoded) ↦
      rw (commit, encoded)
        (elim (Bool-cases (is_ok answer)) [
          | inl saved ↦ rw saved next
          | inr refused ↦ rw refused (same-Continues b kept)
        ])
]

-- A position that is put and sent: the revision grows by one and does not wrap.
published-Continues :
    (b : Bookmarks) (mark : Bookmark) (inbound : ℕ)
    → IsKept b
    → (b.state.outbound_revision == u32_max) ≡ false
    → Continues b
        (record b { state = record (published b.state mark) { inbound_revision = inbound } })
unfolding published put IsSound marks
published-Continues b mark inbound kept below =
    let grown : add32 b.state.outbound_revision 1 ≡ b.state.outbound_revision + 1 = ground arith in
    (
      record {
        sound = put-IsSound b.state mark kept.sound;
        sent = omega (arith, grown, kept.sent);
        word = ground arith;
      },
      omega (arith, grown),
    )

forgotten-Continues :
    (b : Bookmarks)
    → IsKept b
    → Continues b (record b { state = record b.state { inbound_revision = 0 } })
unfolding IsSound marks
forgotten-Continues b kept =
    (record { sound = kept.sound; sent = kept.sent; word = kept.word }, omega arith)

-- What is reset behind a save that the store has taken.
taken-Continues :
    (b : Bookmarks) (o : Outcome) (f : Bookmarks → Bookmarks)
    → (Continues b o.after → Continues b (f o.after))
    → Continues b o.after
    → Continues b (if is_ok o.result then record o { after = f o.after } else o).after
taken-Continues b o f keep next = elim (Bool-cases (is_ok o.result)) [
  | inl taken ↦ rw taken (keep next)
  | inr refused ↦ rw refused next
]

save-Continues :
    (b : Bookmarks) (mark : Bookmark) (answer : Result)
    → IsKept b
    → Continues b (save b mark answer).after
unfolding save published put
save-Continues b mark answer kept = elim (Bool-cases b.loaded) [
  | inr idle ↦ simp idle (same-Continues b kept)
  | inl ready ↦ simp ready (elim (Option-cases (canonical_of mark)) [
    | inl failed ↦ rw failed (same-Continues b kept)
    | inr (m, coded) ↦ rw coded (elim (Bool-cases (is_previous b m)) [
      | inl known ↦ rw known (same-Continues b kept)
      | inr fresh ↦ rw fresh (elim (Bool-cases (b.state.outbound_revision == u32_max)) [
        | inl last ↦ rw last (same-Continues b kept)
        | inr below ↦ rw below (
            commit-Continues b (published b.state m) answer kept
              (published-Continues b m b.state.inbound_revision kept below))
      ])
    ])
  ])
]

apply_remote-Continues :
    (b : Bookmarks) (answer : Result) → IsKept b → Continues b (apply_remote b answer).after
unfolding apply_remote
apply_remote-Continues b answer kept = elim (Bool-cases (not b.loaded || b.remote_revision == 0)) [
  | inl idle ↦ simp idle (same-Continues b kept)
  | inr ready ↦ simp ready (elim (Bool-cases (b.state.outbound_revision == u32_max)) [
    | inl last ↦ rw last (same-Continues b kept)
    | inr below ↦ rw below (
        taken-Continues b
          (commit b (record (published b.state b.remote) { inbound_revision = b.remote_revision })
            answer)
          (λ x. record x { remote_revision = 0 })
          (λ next.
            (record { sound = next.0.sound; sent = next.0.sent; word = next.0.word }, next.1))
          (commit-Continues b
            (record (published b.state b.remote) { inbound_revision = b.remote_revision }) answer
            kept (published-Continues b b.remote b.remote_revision kept below)))
  ])
]

reset_peer-Continues :
    (b : Bookmarks) (answer : Result) → IsKept b → Continues b (reset_peer b answer).after
unfolding reset_peer
reset_peer-Continues b answer kept = elim (Bool-cases b.loaded) [
  | inr idle ↦ simp idle (same-Continues b kept)
  | inl ready ↦ simp ready (
      taken-Continues b
        (if b.state.inbound_revision == 0
          then quiet ok b
          else commit b (record b.state { inbound_revision = 0 }) answer)
        (λ x. record x { remote_revision = 0; queued_revision = 0 })
        (λ next. (record { sound = next.0.sound; sent = omega arith; word = next.0.word }, next.1))
        (elim (Bool-cases (b.state.inbound_revision == 0)) [
          | inl none_seen ↦ rw none_seen (same-Continues b kept)
          | inr seen ↦ rw seen (
              commit-Continues b (record b.state { inbound_revision = 0 }) answer kept
                (forgotten-Continues b kept))
        ]))
]

receive-Continues :
    (b : Bookmarks) (sent : Result) (received : Received)
    → IsKept b
    → Continues b (receive b sent received).after
unfolding receive
receive-Continues b sent received kept =
    elim (Bool-cases (is_ok received.result && ltb b.state.inbound_revision received.revision)) [
      | inl newer ↦ rw newer (elim (Option-cases (decode_bookmark received.bytes)) [
        | inl failed ↦ rw failed (same-Continues b kept)
        | inr (mark, decoded) ↦
            rw decoded
              (record { sound = kept.sound; sent = kept.sent; word = kept.word }, omega arith)
      ])
      | inr older ↦
          rw older
            (elim (Bool-cases
              (not (is_ok received.result) && not (is_end received.result) && is_ok sent)) [
                | inl failed ↦ rw failed (same-Continues b kept)
                | inr quietly ↦ rw quietly (same-Continues b kept)
              ])
    ]

queue-Continues : (b : Bookmarks) (answer : Result) → IsKept b → Continues b (queue b answer)
unfolding queue
queue-Continues b answer kept = elim (Bool-cases (is_ok answer)) [
  | inl taken ↦
      rw taken (record { sound = kept.sound; sent = omega arith; word = kept.word }, omega arith)
  | inr refused ↦ rw refused (same-Continues b kept)
]

sync-Continues :
    (b : Bookmarks) (answer : Result) (received : Received)
    → IsKept b
    → Continues b (sync b answer received).after
unfolding sync
sync-Continues b answer received kept = elim (Bool-cases b.loaded) [
  | inr idle ↦ simp idle (same-Continues b kept)
  | inl ready ↦ simp ready (elim (Bool-cases (ltb b.queued_revision b.state.outbound_revision)) [
    | inr done ↦ rw done (receive-Continues b ok received kept)
    | inl due ↦ rw due (elim (Option-cases (encode_bookmark b.state.outgoing 78)) [
      | inl failed ↦ rw failed (same-Continues b kept)
      | inr (bytes, encoded) ↦ rw encoded (
          let first = queue-Continues b answer kept in
          let rest = receive-Continues (queue b answer) answer received first.0 in
          (rest.0, omega (arith, first.1, rest.1)))
    ])
  ])
]

step-Continues : (b : Bookmarks) (call : Call) → IsKept b → Continues b (step b call)
step-Continues b (saves mark answer) kept = save-Continues b mark answer kept
step-Continues b (syncs answer received) kept = sync-Continues b answer received kept
step-Continues b (applies answer) kept = apply_remote-Continues b answer kept
step-Continues b (resets answer) kept = reset_peer-Continues b answer kept

-- From bookmarks whose array is sound and whose revision to be sent is a word not below the one sent,
-- any calls of Save, Sync, ApplyRemote and ResetPeer, with any answers of the store, lead to such
-- bookmarks again, and the revision to be sent never decreases: it does not wrap.
pub run-Continues : (b : Bookmarks) (calls : List Call) → IsKept b → Continues b (run b calls)
run-Continues b [] kept = same-Continues b kept
run-Continues b (call ∷ calls) kept =
    let first = step-Continues b call kept in
    let rest = run-Continues (step b call) calls first.0 in (rest.0, omega (arith, first.1, rest.1))
