-- ===== src/Pairing/Proof.antt =====
-- When `ValidateEnrollmentProof` of components/note4_companion/note4_pairing_bootstrap.cc accepts.
use zectrix_note4_platform.Base.{
  Bool-cases, List, Option, ap, arith, false, inl, inr, length, none, not, refl, some, sub32, sym,
  ℕ, ◌&&◌, ◌==◌, ◌||◌, ◌∙◌, ◌≡◌, ◌≤◌, ◌⊎◌,
}
use zectrix_note4_platform.Pairing.{
  PairingBootstrap, token_size, zero_token, BootstrapStatus, is_open, is_expired,
  constant_time_token_equal, check_proof, validate_enrollment_proof, is_ok, pairing_window_open,
  expired, consumed, ok, by_state,
}
use zectrix_note4_platform.Pairing.Token.{constant_time_token_equal_iff}

-- On the 32-bit clock the deadline is still ahead, by at most 2^31 ms.
abbrev pub IsAhead : ℕ → ℕ → Type 0
IsAhead deadline now = 0x8000_0000 ≤ sub32 now deadline

-- A proof that carries the current token and generation, in time, from the session that is bound if
-- any is; afterwards the token is gone.
pub record Accepted (session generation : ℕ) (token : Option (List ℕ)) (now : ℕ)
    (p p' : PairingBootstrap) : Type 0 where
  pub was_open : p.state ≡ pairing_window_open
  pub token_ahead : IsAhead p.token_expires_at_ms now
  pub window_ahead : IsAhead p.pairing_window_expires_at_ms now
  pub same_generation : generation ≡ p.generation
  pub same_token : token ≡ some p.token
  pub own_session : (p.session_id ≡ 0) ⊎ (p.session_id ≡ session)
  pub bound : p'.session_id ≡ session
  pub used_up : p'.state ≡ consumed
  pub erased : p'.token ≡ zero_token

-- A refusal leaves all as it was, or lets the token expire; it never binds the session.
pub record Refused (status : BootstrapStatus) (p p' : PairingBootstrap) : Type 0 where
  pub not_ok : is_ok status ≡ false
  pub same_session : p'.session_id ≡ p.session_id
  pub kept : (p' ≡ p) ⊎ ((p'.state ≡ expired) × (p'.token ≡ zero_token))

ahead :
    (p : PairingBootstrap) (now : ℕ)
    → p.state ≡ pairing_window_open
    → is_expired p now ≡ false
    → IsAhead p.token_expires_at_ms now × IsAhead p.pairing_window_expires_at_ms now
ahead p now at soon = (ground arith, ground arith)

check_proof-cases :
    (session generation : ℕ) (token : List ℕ) (now : ℕ) (p : PairingBootstrap)
    → length p.token ≡ token_size
    → length token ≡ token_size
    → p.state ≡ pairing_window_open
    → (((check_proof session generation token now p).0 ≡ ok)
        × Accepted session generation
            (some token)
            now
            p
            (check_proof session generation token now p).1)
      ⊎ Refused
          (check_proof session generation token now p).0
          p
          (check_proof session generation token now p).1
check_proof-cases session generation token now p whole size at =
    elim (Bool-cases (is_expired p now)) [
      | inl late ↦
          rw late (inr (record { not_ok = refl; same_session = refl; kept = inr (refl, refl) }))
      | inr soon ↦ elim (Bool-cases (not (generation == p.generation))) [
        | inl other ↦
            rw (soon, other) (inr (record { not_ok = refl; same_session = refl; kept = inl refl }))
        | inr current ↦ elim (Bool-cases (not (constant_time_token_equal p.token token))) [
          | inl wrong ↦
              rw (soon, current, wrong)
                (inr (record { not_ok = refl; same_session = refl; kept = inl refl }))
          | inr right ↦
              elim (Bool-cases (not (p.session_id == 0) && not (p.session_id == session))) [
                | inl foreign ↦
                    rw (soon, current, right, foreign)
                      (inr (record { not_ok = refl; same_session = refl; kept = inl refl }))
                | inr own ↦
                    let equal : p.token ≡ token =
                      (constant_time_token_equal_iff p.token token (whole ∙ sym size)).0
                        (ground arith) in
                    rw (soon, current, right, own)
                      (inl (
                        refl,
                        record {
                          was_open = at;
                          token_ahead = (ahead p now at soon).0;
                          window_ahead = (ahead p now at soon).1;
                          same_generation = ground arith;
                          same_token = ap some (sym equal);
                          own_session = ground arith;
                          bound = refl;
                          used_up = refl;
                          erased = refl;
                        },
                      ))
              ]
        ]
      ]
    ]

-- With a whole token stored, a proof is accepted only for the stored token and generation, with the
-- window open, before the token's and before the window's deadline on the 32-bit clock, and from the
-- bound session if one is bound, and then the token is erased and the state consumed; otherwise no
-- session is bound, and the state is unchanged or expired.
pub validate_enrollment_proof-cases :
    (session generation : ℕ) (token : Option (List ℕ)) (now : ℕ) (p : PairingBootstrap)
    → length p.token ≡ token_size
    → (((validate_enrollment_proof session generation token now p).0 ≡ ok)
        × Accepted session generation token now p
            (validate_enrollment_proof session generation token now p).1)
      ⊎ Refused
          (validate_enrollment_proof session generation token now p).0
          p
          (validate_enrollment_proof session generation token now p).1
unfolding validate_enrollment_proof
validate_enrollment_proof-cases session generation none now p whole =
    inr (record { not_ok = refl; same_session = refl; kept = inl refl })
validate_enrollment_proof-cases session generation (some token) now p whole =
    elim (Bool-cases (session == 0 || not (length token == token_size))) [
      | inl bad ↦ rw bad (inr (record { not_ok = refl; same_session = refl; kept = inl refl }))
      | inr fine ↦ elim (Bool-cases (is_open p.state)) [
        | inr shut ↦ inr (record {
          not_ok = ground arith;
          same_session = ground arith;
          kept = inl (ground arith);
        })
        | inl open_now ↦
            let at : p.state ≡ pairing_window_open = ground arith in
            let checked : validate_enrollment_proof session generation (some token) now p
                ≡ check_proof session generation token now p =
              opened session generation token now p fine at in
            rw checked (check_proof-cases session generation token now p whole (ground arith) at)
      ]
    ]
  where
    opened :
        (session generation : ℕ) (token : List ℕ) (now : ℕ) (p : PairingBootstrap)
        → session == 0 || not (length token == token_size) ≡ false
        → p.state ≡ pairing_window_open
        → validate_enrollment_proof session generation (some token) now p
          ≡ check_proof session generation token now p
    opened session generation token now p fine at =
        rw (validate_enrollment_proof, fine)
          (ap (λ s. by_state s p (check_proof session generation token now p)) at)
