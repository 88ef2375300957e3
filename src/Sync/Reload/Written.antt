-- ===== src/Sync/Reload/Written.antt =====
-- The body that `Persist` writes is the bytes of the four tables:
-- components/note4_companion/note4_sync_engine.cc.
use zectrix_note4_platform.Base.{
  Bool-cases, List, Option, Option-cases, [], ap, append-nil, append_assoc, arith, inl, inr, none,
  refl, replicate, some, sym, ℕ, ◌++◌, ◌∙◌, ◌∷◌, ◌≡◌,
}
use zectrix_note4_platform.Sync.Table.{Keyed}
use zectrix_note4_platform.Sync.State.{Engine, durable, by_cursor, by_request}
use zectrix_note4_platform.Sync.Persist.{
  ◌>>=◌, entry_content, add_record, add_records, store_header_size, outbox_type, cursor_type,
  command_type, inbox_type, cursor_content, command_content, write_body,
}
use zectrix_note4_platform.Sync.Reload.Tables.{table_bytes, record_of}

add_record-bytes :
    (type : ℕ) (bs out out' : List ℕ)
    → add_record type bs out ≡ some out'
    → out' ≡ out ++ record_of type bs
unfolding add_record
add_record-bytes type bs out out' h = ground arith

-- `add_records` appends the bytes of the table.
add_records-bytes :
    {A : Type 0} (t : Keyed A) (type : ℕ) (bytes_of : A → List ℕ) (xs : List A) (out out' : List ℕ)
    → add_records (λ x. t.valid x) type bytes_of xs out ≡ some out'
    → out' ≡ out ++ table_bytes t type bytes_of xs
unfolding add_records
add_records-bytes t type bytes_of [] out out' h = sym (append-nil out ∙ ground arith)
add_records-bytes t type bytes_of (x ∷ xs) out out' h = elim (Bool-cases (t.valid x)) [
  | inr empty ↦ rw empty (add_records-bytes t type bytes_of xs out out' (rw empty at h))
  | inl taken ↦ elim (Option-cases (add_record type (bytes_of x) out)) [
    | inl no_room ↦ absurd (let h' : none ≡ some out' = rw (taken, no_room) at h in cc)
    | inr (longer, e) ↦
        let later = add_records-bytes t type bytes_of xs longer out' (rw (taken, e) at h) in
        let now = add_record-bytes type (bytes_of x) out longer e in
        rw taken (
          later
          ∙ ap (λ (o : List ℕ). o ++ table_bytes t type bytes_of xs) now
          ∙ append_assoc out (record_of type (bytes_of x)) (table_bytes t type bytes_of xs))
  ]
]

-- The engine's tables, written.
abbrev pub outbox_bytes : Engine → List ℕ
outbox_bytes e = table_bytes durable outbox_type entry_content e.outbox

abbrev pub inbox_bytes : Engine → List ℕ
inbox_bytes e = table_bytes durable inbox_type entry_content e.inbox

abbrev pub cursor_bytes : Engine → List ℕ
cursor_bytes e = table_bytes by_cursor cursor_type cursor_content e.cursors

abbrev pub command_bytes : Engine → List ℕ
command_bytes e = table_bytes by_request command_type command_content e.commands

abbrev pub body_bytes : Engine → List ℕ
body_bytes e = outbox_bytes e ++ (inbox_bytes e ++ (cursor_bytes e ++ (command_bytes e ++ [])))

-- Inversion of a successful bind.
pub >>=-eq-some :
    (m : Option (List ℕ)) (f : List ℕ → Option (List ℕ)) {out : List ℕ}
    → (m >>= f) ≡ some out
    → (bs : List ℕ) × (m ≡ some bs) × (f bs ≡ some out)
>>=-eq-some none f h = absurd (cc)
>>=-eq-some (some bs) f h = (bs, refl, h)

regroup : (a b c d e : List ℕ) → (((a ++ b) ++ c) ++ d) ++ e ≡ a ++ (b ++ (c ++ (d ++ (e ++ []))))
regroup a b c d e = simp (append_assoc, append-nil)

pub write_body-bytes :
    (e : Engine) (out : List ℕ)
    → write_body e ≡ some out
    → out ≡ replicate store_header_size 0 ++ body_bytes e
unfolding write_body
write_body-bytes e out h =
    let (o1, h1, r1) =
      >>=-eq-some
        (add_records (λ x. x.valid) outbox_type entry_content e.outbox
          (replicate store_header_size 0))
        _ h in
    let (o2, h2, r2) =
      >>=-eq-some (add_records (λ x. x.valid) inbox_type entry_content e.inbox o1) _ r1 in
    let (o3, h3, r3) =
      >>=-eq-some (add_records (λ x. x.valid) cursor_type cursor_content e.cursors o2) _ r2 in
    let e1 =
      add_records-bytes durable outbox_type entry_content e.outbox (replicate store_header_size 0)
        o1 h1 in
    let e2 = add_records-bytes durable inbox_type entry_content e.inbox o1 o2 h2 in
    let e3 = add_records-bytes by_cursor cursor_type cursor_content e.cursors o2 o3 h3 in
    let e4 = add_records-bytes by_request command_type command_content e.commands o3 out r3 in
    e4
    ∙ (λ i. e3 i ++ command_bytes e)
    ∙ (λ i. (e2 i ++ cursor_bytes e) ++ command_bytes e)
    ∙ (λ i. ((e1 i ++ inbox_bytes e) ++ cursor_bytes e) ++ command_bytes e)
    ∙ regroup (replicate store_header_size 0) (outbox_bytes e) (inbox_bytes e) (cursor_bytes e)
        (command_bytes e)
