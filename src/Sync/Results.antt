-- ===== src/Sync/Results.antt =====
-- `RecordCommandResult` touches the command results alone.
-- components/note4_companion/note4_sync_engine.cc.
use zectrix_note4_platform.Sync.Persist.{Saved, is_ok}
use zectrix_note4_platform.Base.{
  Bool, List, Option, arith, false, get_or, if◌then◌else◌, inr, ltb, none, not, refl, set,
  set-set_restore, some, true, ℕ, ◌&&◌, ◌==◌, ◌||◌, ◌≡◌,
}
use zectrix_note4_platform.Sync.Table.{find, index_of}
use zectrix_note4_platform.Sync.State.{
  Engine, CommandEntry, blank_command, Input, content, result_capacity, SyncStatus, by_request,
  input_size, is_dangling, same_bytes, not_initialized, invalid_argument, value_too_large,
  revision_conflict, duplicate,
}
use zectrix_note4_platform.Sync.Commands.{record_at, record_command_result, next_stamp, oldest}
use zectrix_note4_platform.Sync.Invariant.{Ends, keep_or-Ends}

-- The values and the cursors stay.
pub record Records (e e' : Engine) : Type 0 where
  pub outbox : e'.outbox ≡ e.outbox
  pub inbox : e'.inbox ≡ e.inbox
  pub cursors : e'.cursors ≡ e.cursors

record_at-Ends :
    (save : List ℕ → Bool) (e : Engine) (request_id result : ℕ) (payload : Input) (i : ℕ)
    → Ends (Records e) e (record_at save e request_id result payload i)
unfolding record_at
record_at-Ends save e request_id result payload i =
    let written : CommandEntry = record {
      request_id = request_id;
      stamp = e.next_command_stamp;
      result = result;
      payload = content payload;
      valid = true;
    } in
    keep_or-Ends (Records e) save e
      (record e {
        commands = set e.commands i written;
        next_command_stamp = next_stamp e.next_command_stamp;
      })
      (λ e'. record e' {
        commands = set e'.commands i (get_or e.commands i blank_command);
        next_command_stamp = e.next_command_stamp;
      })
      (ground (arith, set-set_restore e.commands i written blank_command))
      (record { outbox = refl; inbox = refl; cursors = refl })

Ends-if :
    (e : Engine) (b : Bool) (x y : Saved)
    → Ends (Records e) e x
    → Ends (Records e) e y
    → Ends (Records e) e (if b then x else y)
Ends-if e true x y hx hy = hx
Ends-if e false x y hx hy = hy

refuses : (e : Engine) (status : SyncStatus) → is_ok status ≡ false → Ends (Records e) e (status, e)
refuses e status bad = inr (bad, refl)

looked_up-Ends :
    (save : List ℕ → Bool) (e : Engine) (request_id result : ℕ) (payload : Input)
    (known : Option CommandEntry) (unused : Option ℕ)
    → Ends (Records e) e (elim known [
      | some x ↦ (
        if x.result == result && same_bytes x.payload (content payload)
            then duplicate
            else revision_conflict,
        e,
      )
      | none ↦ elim unused [
        | some i ↦ record_at save e request_id result payload i
        | none ↦ record_at save e request_id result payload (oldest e.commands)
      ]
    ])
looked_up-Ends save e request_id result payload (some x) unused = inr (ground arith, refl)
looked_up-Ends save e request_id result payload none (some i) =
    record_at-Ends save e request_id result payload i
looked_up-Ends save e request_id result payload none none =
    record_at-Ends save e request_id result payload (oldest e.commands)

-- Either the command's result is recorded, and the values and the cursors stay, or the status is not
-- `kOk` and the engine is unchanged.
pub record_command_result-Ends :
    (save : List ℕ → Bool) (e : Engine) (request_id result : ℕ) (payload : Input)
    → Ends (Records e) e (record_command_result save e request_id result payload)
unfolding record_command_result
record_command_result-Ends save e request_id result payload =
    Ends-if e (not e.has_store) _ _ (refuses e not_initialized refl) (
      Ends-if e (request_id == 0 || is_dangling payload) _ _ (refuses e invalid_argument refl) (
        Ends-if e (ltb result_capacity (input_size payload)) _ _ (refuses e value_too_large refl) (
          looked_up-Ends save e request_id result payload (find by_request request_id e.commands)
            (index_of (λ (x : CommandEntry). not x.valid) e.commands))))
