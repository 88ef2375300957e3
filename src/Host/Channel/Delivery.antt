-- ===== src/Host/Channel/Delivery.antt =====
-- Every reply answers the request that was accepted last, in its own session, and at most once.
use zectrix_note4_platform.Base.{
  All, Bool-cases, List, Option, [], arith, false, if◌then◌else◌, inl, inr, none, not, refl, some,
  ℕ, ◌+◌, ◌<◌, ◌==◌, ◌||◌, ◌∷◌, ◌≡◌, ◌≢◌, ◌≤◌, ◌⊎◌,
}
use zectrix_note4_platform.Host.{Frame}
use zectrix_note4_platform.Host.Channel.{
  is_replied, Channel, start, Status, ok, idle, queued, executing, replied, is_idle, enable,
  disable, connect, disconnect, submit, take_request, complete, take_reply,
}

-- A call by either thread.
pub data Call : Type 0 where
  enables disables connects takes_request : Call
  disconnects takes_reply : ℕ → Call
  submits completes : Frame → Call

-- The channel with what an observer of its results has seen: the request accepted last, and how
-- many requests were accepted and replies handed out.
pub record Seen : Type 0 where
  pub channel : Channel
  pub last : Option Frame
  pub accepted : ℕ
  pub answered : ℕ

abbrev pub seen_start : Seen
seen_start = record { channel = start; last = none; accepted = 0; answered = 0 }

abbrev note_submit : Frame → Seen → Status × Channel → Seen
note_submit f s (ok, c) = record {
  channel = c;
  last = some f;
  accepted = s.accepted + 1;
  answered = s.answered;
}
note_submit f s (_, c) = record s { channel = c }

abbrev note_reply : Seen → Option Frame × Channel → Seen
note_reply s (some f, c) = record s { channel = c; answered = s.answered + 1 }
note_reply s (none, c) = record s { channel = c }

unfoldable pub step : Seen → Call → Seen
step s enables = record s { channel = enable s.channel }
step s disables = record s { channel = disable s.channel }
step s connects = record s { channel = (connect s.channel).1 }
step s takes_request = record s { channel = (take_request s.channel).1 }
step s (disconnects n) = record s { channel = disconnect n s.channel }
step s (takes_reply n) = note_reply s (take_reply n s.channel)
step s (submits f) = note_submit f s (submit f s.channel)
step s (completes f) = record s { channel = complete f s.channel }

unfoldable pub run : Seen → List Call → Seen
run s [] = s
run s (c ∷ cs) = run (step s c) cs

-- The slot, unless idle, holds the id and the session of the request accepted last.
abbrev IsLast : Frame → Option Frame → Type 0
IsLast slot none = ⊥
IsLast slot (some r) = (slot.id ≡ r.id) × (slot.session ≡ r.session)

abbrev pub load : Channel → ℕ
load c = if is_idle c.state then 0 else 1

pub record IsSound (s : Seen) : Type 0 where
  pub off : s.channel.enabled ≡ false → s.channel.session ≡ 0
  pub current :
      (s.channel.state ≡ queued) ⊎ (s.channel.state ≡ replied)
      → (s.channel.session ≢ 0) × (s.channel.slot.session ≡ s.channel.session)
  pub running :
      s.channel.state ≡ executing
      → (s.channel.session ≡ 0) ⊎ (s.channel.slot.session ≡ s.channel.session)
  pub addressed : s.channel.state ≢ idle → s.channel.slot.session ≢ 0
  pub latest : s.channel.state ≢ idle → IsLast s.channel.slot s.last
  pub counted : s.answered + load s.channel ≤ s.accepted

step-IsSound : (s : Seen) (c : Call) → IsSound s → IsSound (step s c)
unfolding step enable disable connect disconnect submit take_request complete take_reply
step-IsSound s enables v = ground arith
step-IsSound s disables v = ground arith
step-IsSound s connects v = ground arith
step-IsSound s takes_request v = ground arith
step-IsSound s (disconnects n) v = ground arith
step-IsSound s (takes_reply n) v = ground arith
step-IsSound s (submits f) v = ground arith
step-IsSound s (completes f) v = ground arith

run-IsSound : (s : Seen) (cs : List Call) → IsSound s → IsSound (run s cs)
unfolding run
run-IsSound s [] v = v
run-IsSound s (c ∷ cs) v = run-IsSound (step s c) cs (step-IsSound s c v)

seen_start-IsSound : IsSound seen_start
seen_start-IsSound = ground arith

-- What a reply is worth to the session that takes it.
abbrev pub Answers : ℕ → Seen → Option Frame → Type 0
Answers n s none = Unit
Answers n s (some f) =
    (r : Frame) × (s.last ≡ some r)
    × (f.id ≡ r.id)
    × (f.session ≡ r.session)
    × (f.session ≡ n)
    × (s.answered < s.accepted)

last_request :
    (slot : Frame) (last : Option Frame)
    → IsLast slot last
    → (r : Frame) × (last ≡ some r) × (slot.id ≡ r.id) × (slot.session ≡ r.session)
last_request slot none h = absurd h
last_request slot (some r) h = (r, refl, h.0, h.1)

sound-Answers : (n : ℕ) (s : Seen) → IsSound s → Answers n s (take_reply n s.channel).0
unfolding take_reply
sound-Answers n s v =
    elim (Bool-cases (not (is_replied s.channel.state) || n == 0 || not (n == s.channel.session))) [
      | inl refused ↦ rw refused tt
      | inr taken ↦
          let (r, l, a, b) = last_request s.channel.slot s.last (v.latest (λ q. ground arith)) in
          rw taken (r, l, a, b, ground arith, ground arith)
    ]

-- Whatever the two threads have called since the channel was made, a reply handed to session `n`
-- has the id and the session of the request that was accepted last, that session is `n`, and some
-- accepted request had no reply yet.
pub run-Answers :
    (n : ℕ) (cs : List Call)
    → Answers n (run seen_start cs) (take_reply n (run seen_start cs).channel).0
run-Answers n cs = sound-Answers n _ (run-IsSound seen_start cs seen_start-IsSound)

-- At every moment at most as many replies were handed out as requests were accepted, and one
-- fewer while a request is in the slot.
pub run-answered-le :
    (cs : List Call)
    → (run seen_start cs).answered + load (run seen_start cs).channel ≤ (run seen_start cs).accepted
run-answered-le cs = (run-IsSound seen_start cs seen_start-IsSound).counted

-- Work that the foreground still executes after its session is gone.
abbrev pub IsAbandoned : Frame → Channel → Type 0
IsAbandoned f c = (c.state ≡ executing) × (c.session ≡ 0) × (c.slot ≡ f)

-- Any call but a completion of that very request.
abbrev pub IsOther : Frame → Call → Type 0
IsOther slot (completes g) = (g.id ≢ slot.id) ⊎ (g.session ≢ slot.session)
IsOther slot _ = Unit

step-IsAbandoned :
    (f : Frame) (s : Seen) (c : Call)
    → IsOther f c
    → IsAbandoned f s.channel
    → IsAbandoned f (step s c).channel
unfolding step enable disable connect disconnect submit take_request take_reply complete
step-IsAbandoned f s (completes g) n a = ground arith
step-IsAbandoned f s _ n a = ground arith

run-IsAbandoned :
    (f : Frame) (s : Seen) (cs : List Call)
    → All (IsOther f) cs
    → IsAbandoned f s.channel
    → IsAbandoned f (run s cs).channel
unfolding run
run-IsAbandoned f s [] n a = a
run-IsAbandoned f s (c ∷ cs) n a =
    run-IsAbandoned f (step s c) cs n.1 (step-IsAbandoned f s c n.0 a)

dropped :
    (s : Seen)
    → s.channel.state ≡ executing
    → s.channel.session ≢ 0
    → IsAbandoned s.channel.slot (step s (disconnects s.channel.session)).channel
unfolding step disconnect
dropped s e h = ground arith

-- A session that goes away while its request executes leaves the slot taken: after any calls other
-- than a completion with the request's id and session, completions of other requests included, no
-- session can be opened and no reply is handed out, and a completion with the request's id and
-- session frees the slot with no reply.
pub disconnect-IsAbandoned :
    (s : Seen) (cs : List Call) (n : ℕ) (reply : Frame)
    → s.channel.state ≡ executing
    → s.channel.session ≢ 0
    → s.channel.slot.session ≢ 0
    → All (IsOther s.channel.slot) cs
    → reply.id ≡ s.channel.slot.id
    → reply.session ≡ s.channel.slot.session
    → let c = (run (step s (disconnects s.channel.session)) cs).channel in
      ((connect c).0 ≡ 0) × ((take_reply n c).0 ≡ none) × ((complete reply c).state ≡ idle)
unfolding connect take_reply complete
disconnect-IsAbandoned s cs n reply e h k none_completes i j =
    let a =
      run-IsAbandoned s.channel.slot (step s (disconnects s.channel.session)) cs none_completes
        (dropped s e h) in
    ground (arith, a)
