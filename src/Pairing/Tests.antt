-- ===== src/Pairing/Tests.antt =====
-- Runs of a pairing.
use mathlib.Core.Logic.{◌↔◌}
use zectrix_note4_platform.Base.{
  List, [], add32, arith, leb, refl, replicate, some, true, ℕ, ◌∷◌, ◌≡◌, ◌⊎◌,
}
use zectrix_note4_platform.Pairing.{
  PairingBootstrap, BootstrapConfig, sanitize_duration, construct, deadline_reached,
  constant_time_token_equal, validate_enrollment_proof, pairing_window_open, ok,
}
use zectrix_note4_platform.Pairing.Token.{constant_time_token_equal_iff}
use zectrix_note4_platform.Pairing.Proof.{Accepted, Refused, validate_enrollment_proof-cases}
use zectrix_note4_platform.Pairing.SingleUse.{
  Call, Seen, run, IsSpentOnce, run-IsSpentOnce, seen_start, prepares, opens, proves,
}
use zectrix_note4_platform.Pairing.Deadline.{deadline_reached-add32}

abbrev secret : List ℕ
secret = 1 ∷ 2 ∷ 3 ∷ 4 ∷ 5 ∷ 6 ∷ 7 ∷ 8 ∷ 9 ∷ 10 ∷ 11 ∷ 12 ∷ 13 ∷ 14 ∷ 15 ∷ 16 ∷ []

abbrev guess : List ℕ
guess = replicate 16 9

constant_time_token_equal_iff_example :
    (constant_time_token_equal secret guess ≡ true) ↔ (secret ≡ guess)
constant_time_token_equal_iff_example = constant_time_token_equal_iff secret guess refl

-- A clock that wraps between the two readings.
deadline_reached-add32_example :
    deadline_reached (add32 0xffff_ff00 5000) (add32 0xffff_ff00 (sanitize_duration 4000))
    ≡ leb (sanitize_duration 4000) 5000
deadline_reached-add32_example =
    deadline_reached-add32 0xffff_ff00 5000 4000 (omega arith) (omega arith)

abbrev window : PairingBootstrap
window = record {
  config = record { token_ttl_ms = 120000; pairing_window_ms = 120000 };
  state = pairing_window_open;
  token = secret;
  generation = 3;
  session_id = 0;
  prepared_at_ms = 1000;
  token_expires_at_ms = 121000;
  pairing_window_expires_at_ms = 122000;
}

validate_enrollment_proof-cases_example :
    (((validate_enrollment_proof 7 3 (some secret) 2000 window).0 ≡ ok)
      × Accepted 7 3
          (some secret)
          2000
          window
          (validate_enrollment_proof 7 3 (some secret) 2000 window).1)
    ⊎ Refused
        (validate_enrollment_proof 7 3 (some secret) 2000 window).0
        window
        (validate_enrollment_proof 7 3 (some secret) 2000 window).1
validate_enrollment_proof-cases_example =
    validate_enrollment_proof-cases 7 3 (some secret) 2000 window refl

seen_start-IsSpentOnce : (config : BootstrapConfig) → IsSpentOnce (seen_start config)
unfolding construct
seen_start-IsSpentOnce config = record { cleared = λ q. refl; paid = omega arith }

abbrev paired : List Call
paired =
    prepares (some secret) 1000
    ∷ opens 1500
    ∷ proves 7 1 (some secret) (some true) 2000
    ∷ proves 7 1 (some secret) (some true) 2001
    ∷ []

abbrev start_of_day : Seen
start_of_day = seen_start (record { token_ttl_ms = 0; pairing_window_ms = 60000 })

run-IsSpentOnce_example : IsSpentOnce (run start_of_day paired)
run-IsSpentOnce_example =
    run-IsSpentOnce start_of_day paired
      (seen_start-IsSpentOnce (record { token_ttl_ms = 0; pairing_window_ms = 60000 }))
