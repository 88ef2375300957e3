-- ===== src/Pairing/SingleUse.antt =====
-- A token is worth one accepted proof. components/note4_companion/note4_pairing_bootstrap.cc.
use zectrix_note4_platform.Base.{
  Bool, List, Option, [], arith, false, if◌then◌else◌, none, some, true, ℕ, ◌+◌, ◌∷◌, ◌≡◌, ◌≤◌,
}
use zectrix_note4_platform.Pairing.{
  PairingBootstrap, zero_token, BootstrapState, BootstrapStatus, store_error, BootstrapConfig,
  construct, is_live, Outcome, prepare, open_pairing_window, bind_session,
  validate_enrollment_proof, validate_and_persist_enrollment_proof, material, cancel, ok,
}

-- The last number of a call is the clock's reading.
pub data Call : Type 0 where
  prepares : Option (List ℕ) → ℕ → Call
  opens : ℕ → Call
  binds : ℕ → ℕ → Call
  proves : ℕ → ℕ → Option (List ℕ) → Option Bool → ℕ → Call
  validates : ℕ → ℕ → Option (List ℕ) → ℕ → Call
  reads : ℕ → Call
  cancels : Call

-- With the counts of the tokens made and of the proofs accepted.
pub record Seen : Type 0 where
  pub bootstrap : PairingBootstrap
  pub made : ℕ
  pub spent : ℕ

abbrev count_made : Seen → Outcome → Seen
count_made s (ok, p) = record s { bootstrap = p; made = s.made + 1 }
count_made s (_, p) = record s { bootstrap = p }

-- The statuses with which a proof was accepted; with `kStoreError` it was, but not stored.
abbrev pub accepts_proof : BootstrapStatus → Bool
accepts_proof ok = true
accepts_proof store_error = true
accepts_proof _ = false

abbrev count_spent : Seen → Outcome → Seen
count_spent s (status, p) =
    if accepts_proof status
    then record s { bootstrap = p; spent = s.spent + 1 }
    else record s { bootstrap = p }

pub step : Seen → Call → Seen
step s (prepares generated now) = count_made s (prepare generated now s.bootstrap)
step s (opens now) = record s { bootstrap = (open_pairing_window now s.bootstrap).1 }
step s (binds session now) = record s { bootstrap = (bind_session session now s.bootstrap).1 }
step s (proves session generation token persist now) =
    count_spent s
      (validate_and_persist_enrollment_proof session generation token persist now s.bootstrap)
step s (validates session generation token now) =
    count_spent s (validate_enrollment_proof session generation token now s.bootstrap)
step s (reads now) = record s { bootstrap = (material now s.bootstrap).1.1 }
step s cancels = record s { bootstrap = (cancel s.bootstrap).1 }

pub run : Seen → List Call → Seen
run s [] = s
run s (c ∷ cs) = run (step s c) cs

abbrev load : BootstrapState → ℕ
load s = if is_live s then 1 else 0

-- No secret outside the two live states, and a token for every proof.
pub record IsSpentOnce (s : Seen) : Type 0 where
  pub cleared : is_live s.bootstrap.state ≡ false → s.bootstrap.token ≡ zero_token
  pub paid : s.spent + load s.bootstrap.state ≤ s.made

step-IsSpentOnce : (s : Seen) (c : Call) → IsSpentOnce s → IsSpentOnce (step s c)
unfolding step prepare open_pairing_window bind_session validate_and_persist_enrollment_proof
    validate_enrollment_proof material cancel
step-IsSpentOnce s (prepares none now) v = ground arith
step-IsSpentOnce s (prepares (some generated) now) v = ground arith
step-IsSpentOnce s (opens now) v = ground arith
step-IsSpentOnce s (binds session now) v = ground arith
step-IsSpentOnce s (proves session generation none persist now) v = ground arith
step-IsSpentOnce s (proves session generation (some token) none now) v = ground arith
step-IsSpentOnce s (proves session generation (some token) (some saved) now) v = ground arith
step-IsSpentOnce s (validates session generation none now) v = ground arith
step-IsSpentOnce s (validates session generation (some token) now) v = ground arith
step-IsSpentOnce s (reads now) v = ground arith
step-IsSpentOnce s cancels v = ground arith

-- From a state in which this holds, after any calls at any times the token is all zeros unless the
-- state is prepared or open, and at most as many proofs were accepted, by either of the validating
-- calls, as tokens were made, one fewer while a token is live.
pub run-IsSpentOnce : (s : Seen) (cs : List Call) → IsSpentOnce s → IsSpentOnce (run s cs)
unfolding run
run-IsSpentOnce s [] v = v
run-IsSpentOnce s (c ∷ cs) v = run-IsSpentOnce (step s c) cs (step-IsSpentOnce s c v)

abbrev pub seen_start : BootstrapConfig → Seen
seen_start config = record { bootstrap = construct config; made = 0; spent = 0 }
