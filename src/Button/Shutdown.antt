-- ===== src/Button/Shutdown.antt =====
-- The bound on the buffer, and the way of a shutdown request through it.
use zectrix_note4_platform.Base.{
  All, All-append, All-parts, Bool, Bool-cases, List, [], ap, arith, false, inl, inr, length,
  length-append, map, refl, some, true, ◌++◌, ◌∷◌, ◌≡◌, ◌≤◌, ◌⊎◌,
}
use zectrix_note4_platform.Button.{
  is_wake, Event, Buffer, capacity, is_shutdown, is_closed, push, pop, erase,
}
use zectrix_note4_platform.Button.Retention.{
  Pushed, push-Pushed, ignored, shut, closed, appended, turned_away, replaced,
}

-- A call of the buffer's owner.
pub data Call : Type 0 where
  pushes : Event → Call
  pops : Call

pub step : Buffer → Call → Buffer
step es (pushes e) = (push e es).1
step es pops = (pop es).1

pub run : Buffer → List Call → Buffer
run es [] = es
run es (c ∷ cs) = run (step es c) cs

-- No event is a shutdown request.
abbrev pub IsCalm : Buffer → Type 0
IsCalm = All (λ e. is_shutdown e ≡ false)

-- Within the capacity, and a shutdown request stands alone.
pub record IsSound (es : Buffer) : Type 0 where
  pub bounded : length es ≤ capacity
  pub alone : IsCalm es ⊎ ((e : Event) × (is_shutdown e ≡ true) × (es ≡ e ∷ []))

IsCalm-of_open : (es : Buffer) → is_closed es ≡ false → IsSound es → IsCalm es
unfolding is_closed
IsCalm-of_open [] c v = tt
IsCalm-of_open (e ∷ es) c v = go v.alone
  where
    go :
        IsCalm (e ∷ es) ⊎ ((x : Event) × (is_shutdown x ≡ true) × (e ∷ es ≡ x ∷ []))
        → IsCalm (e ∷ es)
    go (inl calm) = calm
    go (inr (x, s, q)) = absurd (ground arith)

append-IsCalm :
    (es : Buffer) (e : Event) → IsCalm es → is_shutdown e ≡ false → IsCalm (es ++ e ∷ [])
append-IsCalm es e calm s = All-append (λ x. is_shutdown x ≡ false) es (e ∷ []) calm (s, tt)

without-IsCalm :
    (before after : Buffer) (x : Event) → IsCalm (before ++ x ∷ after) → IsCalm (before ++ after)
without-IsCalm before after x calm =
    let (b, a) = All-parts (λ x. is_shutdown x ≡ false) before (x ∷ after) calm in
    All-append (λ x. is_shutdown x ≡ false) before after b a.1

Pushed-IsSound :
    (e : Event) (es : Buffer) (r : Bool × Buffer) → Pushed e es r → IsSound es → IsSound r.1
Pushed-IsSound e es r (ignored w) v = v
Pushed-IsSound e es r (shut w s) v = record { bounded = omega arith; alone = inr (e, s, refl) }
Pushed-IsSound e es r (closed w s c) v = v
Pushed-IsSound e es r (appended w s c n) v = record {
  bounded = omega (arith, v.bounded, n, length-append es (e ∷ []));
  alone = inl (append-IsCalm es e (IsCalm-of_open es c v) s);
}
Pushed-IsSound e es r (turned_away w s c n q) v = v
Pushed-IsSound e es r (replaced before x after w s c n d split y) v = record {
  bounded = omega (
    arith,
    ap length split,
    length-append before (x ∷ after),
    length-append before after,
    length-append (before ++ after) (e ∷ []),
  );
  alone = inl (
      append-IsCalm (before ++ after) e
        (without-IsCalm before after x (rw split at (IsCalm-of_open es c v))) s);
}

step-IsSound : (es : Buffer) (c : Call) → IsSound es → IsSound (step es c)
unfolding step pop erase
step-IsSound es (pushes e) v = Pushed-IsSound e es (push e es) (push-Pushed e es) v
step-IsSound [] pops v = v
step-IsSound (e ∷ es) pops v = record { bounded = omega (arith, v.bounded); alone = go v.alone }
  where
    go :
        IsCalm (e ∷ es) ⊎ ((x : Event) × (is_shutdown x ≡ true) × (e ∷ es ≡ x ∷ []))
        → IsCalm es ⊎ ((x : Event) × (is_shutdown x ≡ true) × (es ≡ x ∷ []))
    go (inl calm) = inl calm.1
    go (inr (x, s, q)) = inl (ground arith)

-- From any sound buffer, and so from the empty one, no calls overfill the buffer or put another
-- event beside a shutdown request.
pub run-IsSound : (es : Buffer) (cs : List Call) → IsSound es → IsSound (run es cs)
unfolding run
run-IsSound es [] v = v
run-IsSound es (c ∷ cs) v = run-IsSound (step es c) cs (step-IsSound es c v)

shutdown_awake : (e : Event) → is_shutdown e ≡ true → is_wake e.action ≡ false
unfolding is_shutdown
shutdown_awake e s = ground arith

abbrev IsRequest : Buffer → Type 0
IsRequest es = (x : Event) × (is_shutdown x ≡ true) × (es ≡ x ∷ [])

push-IsRequest : (e x : Event) → is_shutdown x ≡ true → IsRequest (push e (x ∷ [])).1
unfolding push is_closed
push-IsRequest e x s = elim (Bool-cases (is_wake e.action)) [
  | inl w ↦ (x, s, ground arith)
  | inr w ↦ elim (Bool-cases (is_shutdown e)) [
    | inl s' ↦ (e, s', ground arith)
    | inr s' ↦ (x, s, ground arith)
  ]
]

pushes-IsRequest :
    (es : Buffer) (later : List Event) → IsRequest es → IsRequest (run es (map pushes later))
unfolding run step
pushes-IsRequest es [] h = h
pushes-IsRequest es (e ∷ later) (x, s, q) =
    pushes-IsRequest (push e es).1 later (rw q (push-IsRequest e x s))

-- A shutdown request that goes in wipes the buffer, and whatever is pushed after it, however
-- often, the next pop hands out a shutdown request and leaves the buffer empty.
pub push-shutdown-pop :
    (e : Event) (es : Buffer) (later : List Event)
    → is_shutdown e ≡ true
    → (x : Event) × (is_shutdown x ≡ true)
      × (pop (run (push e es).1 (map pushes later)) ≡ (some x, []))
unfolding push pop erase
push-shutdown-pop e es later s =
    let (x, s', q) = pushes-IsRequest (e ∷ []) later (e, s, refl) in
    (x, s', ground (arith, shutdown_awake e))
