-- ===== src/Pairing.antt =====
-- The enrollment token of a pairing: components/note4_companion/note4_pairing_bootstrap.cc and its
-- header. The clock's reading and the random source's answer are arguments of the operations.
pub mod Token
pub mod Deadline
pub mod SingleUse
pub mod Proof
mod Tests
use Prim.Native.Nat.{bit_or, bit_xor}
use zectrix_note4_platform.Base.{
  Bool, List, Option, add32, false, if◌then◌else◌, length, ltb, min, none, not, replicate, some,
  sub32, true, ℕ, ◌&&◌, ◌==◌, ◌||◌, ◌∷◌,
}

abbrev pub token_size : ℕ
token_size = 16

abbrev pub zero_token : List ℕ
zero_token = replicate token_size 0

pub data BootstrapState : Type 0 where
  idle prepared pairing_window_open expired consumed : BootstrapState

pub data BootstrapStatus : Type 0 where
  ok invalid_argument invalid_state token_mismatch generation_mismatch : BootstrapStatus
  session_mismatch expired_status already_consumed store_error : BootstrapStatus

pub record BootstrapConfig : Type 0 where
  pub token_ttl_ms : ℕ
  pub pairing_window_ms : ℕ

pub record BootstrapMaterial : Type 0 where
  pub generation : ℕ
  pub token : List ℕ
  pub active : Bool

pub record PairingBootstrap : Type 0 where
  pub config : BootstrapConfig
  pub state : BootstrapState
  pub token : List ℕ
  pub generation : ℕ
  pub session_id : ℕ
  pub prepared_at_ms : ℕ
  pub token_expires_at_ms : ℕ
  pub pairing_window_expires_at_ms : ℕ

abbrev pub maximum_duration_ms : ℕ
maximum_duration_ms = 0x7fff_ffff

abbrev pub default_duration_ms : ℕ
default_duration_ms = 120000

-- `SanitizeDuration`.
abbrev pub sanitize_duration : ℕ → ℕ
sanitize_duration value = if value == 0 then default_duration_ms else min value maximum_duration_ms

-- The constructor.
unfoldable pub construct : BootstrapConfig → PairingBootstrap
construct config = record {
  config = record {
    token_ttl_ms = sanitize_duration config.token_ttl_ms;
    pairing_window_ms = sanitize_duration config.pairing_window_ms;
  };
  state = idle;
  token = zero_token;
  generation = 0;
  session_id = 0;
  prepared_at_ms = 0;
  token_expires_at_ms = 0;
  pairing_window_expires_at_ms = 0;
}

-- `DeadlineReached`: the difference as a signed number is not negative.
abbrev pub deadline_reached : ℕ → ℕ → Bool
deadline_reached now deadline = ltb (sub32 now deadline) 0x8000_0000

abbrev pub is_open : BootstrapState → Bool
is_open pairing_window_open = true
is_open _ = false

abbrev pub is_prepared : BootstrapState → Bool
is_prepared prepared = true
is_prepared _ = false

abbrev pub is_live : BootstrapState → Bool
is_live s = is_prepared s || is_open s

-- `IsExpired`.
abbrev pub is_expired : PairingBootstrap → ℕ → Bool
is_expired p now =
    if is_open p.state
    then deadline_reached now p.token_expires_at_ms
      || deadline_reached now p.pairing_window_expires_at_ms
    else deadline_reached now p.token_expires_at_ms

-- `ConstantTimeTokenEqual`, which reads the same number of bytes of both.
unfoldable pub difference : ℕ → List ℕ → List ℕ → ℕ
difference d (a ∷ as') (b ∷ bs) = difference (bit_or d (bit_xor a b)) as' bs
difference d _ _ = d

abbrev pub constant_time_token_equal : List ℕ → List ℕ → Bool
constant_time_token_equal first second = difference 0 first second == 0

abbrev pub Outcome : Type 0
Outcome = BootstrapStatus × PairingBootstrap

abbrev pub expire : PairingBootstrap → Outcome
expire p = (expired_status, record p { state = expired; token = zero_token })

abbrev pub next_generation : ℕ → ℕ
next_generation g = if add32 g 1 == 0 then 1 else add32 g 1

-- `Prepare`: `generated` is `none` where the random source refuses.
unfoldable pub prepare : Option (List ℕ) → ℕ → PairingBootstrap → Outcome
prepare none now p = (invalid_state, p)
prepare (some generated) now p = (
  ok,
  record p {
    token = generated;
    generation = next_generation p.generation;
    session_id = 0;
    prepared_at_ms = now;
    token_expires_at_ms = add32 now p.config.token_ttl_ms;
    pairing_window_expires_at_ms = 0;
    state = prepared;
  },
)

unfoldable pub open_pairing_window : ℕ → PairingBootstrap → Outcome
open_pairing_window now p =
    if not (is_live p.state)
    then (invalid_state, p)
    else if is_open p.state && deadline_reached now p.pairing_window_expires_at_ms
    then expire p
    else if is_expired p now
    then expire p
    else if is_prepared p.state
    then (
      ok,
      record p {
        pairing_window_expires_at_ms = add32 now p.config.pairing_window_ms;
        state = pairing_window_open;
      },
    )
    else (ok, p)

unfoldable pub bind_session : ℕ → ℕ → PairingBootstrap → Outcome
bind_session session now p =
    if session == 0
    then (invalid_argument, p)
    else if not (is_open p.state)
    then (invalid_state, p)
    else if is_expired p now
    then expire p
    else if not (p.session_id == 0) && not (p.session_id == session)
    then (session_mismatch, p)
    else (ok, record p { session_id = session })

-- The checks behind those of the arguments, with the window open.
abbrev pub check_proof : ℕ → ℕ → List ℕ → ℕ → PairingBootstrap → Outcome
check_proof session generation token now p =
    if is_expired p now
    then expire p
    else if not (generation == p.generation)
    then (generation_mismatch, p)
    else if not (constant_time_token_equal p.token token)
    then (token_mismatch, p)
    else if not (p.session_id == 0) && not (p.session_id == session)
    then (session_mismatch, p)
    else (ok, record p { session_id = session; token = zero_token; state = consumed })

-- The switch on the state; `checked` is what an open window leads to.
abbrev pub by_state : BootstrapState → PairingBootstrap → Outcome → Outcome
by_state consumed p checked = (already_consumed, p)
by_state idle p checked = (invalid_state, p)
by_state expired p checked = (expired_status, p)
by_state prepared p checked = (invalid_state, p)
by_state pairing_window_open p checked = checked

-- `ValidateEnrollmentProof`: `token` is `none` for the null pointer.
unfoldable pub validate_enrollment_proof : ℕ → ℕ → Option (List ℕ) → ℕ → PairingBootstrap → Outcome
validate_enrollment_proof session generation none now p = (invalid_argument, p)
validate_enrollment_proof session generation (some token) now p =
    if session == 0 || not (length token == token_size)
    then (invalid_argument, p)
    else by_state p.state p (check_proof session generation token now p)

abbrev pub is_ok : BootstrapStatus → Bool
is_ok ok = true
is_ok _ = false

abbrev stored : Bool → Outcome → Outcome
stored saved (status, p) =
    if is_ok status then (if saved then ok else store_error, p) else (status, p)

-- `ValidateAndPersistEnrollmentProof`: `persist` is `none` for an empty function, or what it returns
-- when it is called.
unfoldable pub validate_and_persist_enrollment_proof :
    ℕ → ℕ → Option (List ℕ) → Option Bool → ℕ → PairingBootstrap → Outcome
unfolding validate_enrollment_proof
validate_and_persist_enrollment_proof session generation token none now p = (invalid_argument, p)
validate_and_persist_enrollment_proof session generation token (some saved) now p =
    stored saved (validate_enrollment_proof session generation token now p)

abbrev pub no_material : BootstrapMaterial
no_material = record { generation = 0; token = zero_token; active = false }

unfoldable pub material : ℕ → PairingBootstrap → BootstrapMaterial × Outcome
material now p =
    if not (is_live p.state)
    then (no_material, (invalid_state, p))
    else if is_expired p now
    then (no_material, expire p)
    else (record { generation = p.generation; token = p.token; active = true }, (ok, p))

unfoldable pub cancel : PairingBootstrap → Outcome
cancel p = (
  ok,
  record p {
    token = zero_token;
    generation = 0;
    session_id = 0;
    prepared_at_ms = 0;
    token_expires_at_ms = 0;
    pairing_window_expires_at_ms = 0;
    state = idle;
  },
)
