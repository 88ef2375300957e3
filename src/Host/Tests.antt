-- ===== src/Host/Tests.antt =====
-- Runs of the host protocol.
use zectrix_note4_platform.Base.{
  All, List, [], arith, inl, length, none, refl, replicate, some, suc, true, zero, ℕ, ◌++◌, ◌<◌,
  ◌∷◌, ◌≡◌,
}
use zectrix_note4_platform.Host.{Frame, wire_size}
use zectrix_note4_platform.Host.Channel.{
  connect, take_reply, complete, take_request, submit, enable, idle, executing,
}
use zectrix_note4_platform.Host.Channel.Delivery.{
  Call, Seen, seen_start, step, run, Answers, run-Answers, disconnect-IsAbandoned, enables,
  connects, takes_request, disconnects, submits, completes,
}
use zectrix_note4_platform.Host.Wire.{encode_frame, decode_frame}
use zectrix_note4_platform.Host.Wire.Frames.{IsFrame, received, encode_frame-decode_frame}

abbrev ping : Frame
ping = record {
  operation = 1;
  status = 0;
  size = 3;
  id = 42;
  session = 1;
  payload = 7 ∷ 0 ∷ 9 ∷ replicate 1021 0;
}

-- A request that was accepted, taken and answered.
abbrev answered_once : List Call
answered_once = enables ∷ connects ∷ submits ping ∷ takes_request ∷ completes ping ∷ []

run-Answers_example :
    Answers 1 (run seen_start answered_once) (take_reply 1 (run seen_start answered_once).channel).0
run-Answers_example = run-Answers 1 answered_once

-- The run really ends with the reply to hand out.
answered_once-replied : (take_reply 1 (run seen_start answered_once).channel).0 ≡ some ping
unfolding run step enable connect submit take_request complete take_reply
answered_once-replied = refl

abbrev executing_ping : Seen
executing_ping = record {
  channel = record {
    slot = ping;
    state = executing;
    session = 1;
    next_session = 1;
    enabled = true;
  };
  last = some ping;
  accepted = 1;
  answered = 0;
}

-- The completion of an earlier request comes in between.
abbrev late_calls : List Call
late_calls = connects ∷ completes (record ping { id = 41 }) ∷ takes_request ∷ []

disconnect-IsAbandoned_example :
    let c = (run (step executing_ping (disconnects 1)) late_calls).channel in
    ((connect c).0 ≡ 0) × ((take_reply 1 c).0 ≡ none) × ((complete ping c).state ≡ idle)
disconnect-IsAbandoned_example =
    disconnect-IsAbandoned executing_ping late_calls 1 ping refl (λ q. ground arith)
      (λ q. ground arith) (tt, (inl (λ q. ground arith), (tt, tt))) refl refl

ping-IsFrame : IsFrame ping
ping-IsFrame = record {
  operation_byte = omega arith;
  status_byte = omega arith;
  size_fits = omega arith;
  id_word = omega arith;
  session_word = omega arith;
  array = refl;
  payload_bytes = (omega arith, (omega arith, (omega arith, zeros 1021)));
}
  where
    zeros : (n : ℕ) → All (λ b. b < 256) (replicate n 0)
    zeros zero = tt
    zeros (suc n) = (omega arith, zeros n)

encode_frame-decode_frame_example :
    (bytes : List ℕ) × (encode_frame ping wire_size ≡ bytes ++ 0 ∷ [])
    × All (λ b. (0 < b) × (b < 256)) bytes
    × (length bytes < wire_size)
    × (decode_frame bytes ping ≡ (true, received ping ping))
encode_frame-decode_frame_example =
    encode_frame-decode_frame ping ping wire_size ping-IsFrame (omega arith)
