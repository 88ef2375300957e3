-- ===== src/Scene/Balance.antt =====
-- Enter and exit handlers alternate, and the stack stays within its bounds.
-- components/note4_app/note4_scene_manager.cc.
use zectrix_note4_platform.Base.{
  All, Bool, Bool-cases, List, Option, [], all, ap, arith, false, if◌then◌else◌, inl, inr, leb,
  length, ltb, none, not, refl, some, subst, sym, true, ℕ, ◌&&◌, ◌++◌, ◌<◌, ◌==◌, ◌||◌, ◌∙◌, ◌∷◌,
  ◌≡◌, ◌≤◌,
}
use zectrix_note4_platform.Scene.{
  SceneManager, capacity, Transition, Effect, request, requests, apply, stay, push, replace, pop,
  enters, exits, EventType, is_stay, start, moved, top, dispatch, stop, invalid_scene, is_back,
  handle,
}

-- The scene that is active, `none` for no scene.
abbrev pub active : List ℕ → Option ℕ
active [] = none
active (x ∷ xs) = some x

-- An observer of the handlers: a scene is entered only when none is active, and only the active one
-- is left. `none` once that was broken.
unfoldable pub replay : Option ℕ → List Effect → Option (Option ℕ)
replay now [] = some now
replay none (enters x ∷ es) = replay (some x) es
replay (some y) (exits x ∷ es) = if x == y then replay none es else none
replay none (exits x ∷ es) = none
replay (some y) (enters x ∷ es) = none

replay-append :
    (now next : Option ℕ) (es es' : List Effect)
    → replay now es ≡ some next
    → replay now (es ++ es') ≡ replay next es'
unfolding replay
replay-append now next [] es' h =
    let same : now ≡ next = ground arith in ap (λ n. replay n es') same
replay-append none next (enters x ∷ es) es' h = replay-append (some x) next es es' h
replay-append (some y) next (exits x ∷ es) es' h = elim (Bool-cases (x == y)) [
  | inl same ↦
      let rest : replay none es ≡ some next = ground arith in
      rw same (replay-append none next es es' rest)
  | inr differs ↦ absurd (ground arith)
]
replay-append none next (exits x ∷ es) es' h = absurd (ground arith)
replay-append (some y) next (enters x ∷ es) es' h = absurd (ground arith)

-- Between two calls.
pub record IsSteady (s : SceneManager) : Type 0 where
  pub bounded : length s.stack ≤ capacity
  pub scenes : All (λ x. x < s.count) s.stack
  pub quiet : (s.busy ≡ false) × (s.in_event ≡ false) × (s.pending ≡ stay)

-- While an event runs: a pending transition can be applied to a stack of scenes below `count`.
abbrev CanMove : ℕ → Transition → ℕ → List ℕ → Type 0
CanMove count stay target stack = Unit
CanMove count pop target stack = 2 ≤ length stack
CanMove count push target stack = (target < count) × (length stack < capacity)
CanMove count replace target stack = target < count

-- A request keeps all but the pending transition.
record Asked (s s' : SceneManager) : Type 0 where
  same_stack : s'.stack ≡ s.stack
  same_count : s'.count ≡ s.count
  can_move : CanMove s'.count s'.pending s'.target s'.stack

request-Asked :
    (t : Transition) (x : ℕ) (s : SceneManager)
    → length s.stack ≤ capacity
    → CanMove s.count s.pending s.target s.stack
    → Asked s (request t x s).1
unfolding request
request-Asked t x s fits can = record {
  same_stack = ground arith;
  same_count = ground arith;
  can_move = ground arith;
}

requests-Asked :
    (asked : List (Transition × ℕ)) (s : SceneManager)
    → length s.stack ≤ capacity
    → CanMove s.count s.pending s.target s.stack
    → Asked s (requests asked s)
unfolding requests
requests-Asked [] s fits can = record { same_stack = refl; same_count = refl; can_move = can }
requests-Asked ((t, x) ∷ rest) s fits can =
    let a = request-Asked t x s fits can in
    let b =
      requests-Asked rest (request t x s).1 (omega (arith, ap length a.same_stack)) a.can_move in
    record {
      same_stack = b.same_stack ∙ a.same_stack;
      same_count = b.same_count ∙ a.same_count;
      can_move = b.can_move;
    }

-- What a transition does to a stack of known scenes.
record Moved (count : ℕ) (stack stack' : List ℕ) (es : List Effect) : Type 0 where
  bounded : length stack' ≤ capacity
  scenes : All (λ x. x < count) stack'
  balanced : replay (active stack) es ≡ some (active stack')

moved-Moved :
    (count : ℕ) (p : Transition) (target : ℕ) (stack : List ℕ)
    → length stack ≤ capacity
    → All (λ x. x < count) stack
    → 0 < length stack
    → CanMove count p target stack
    → Moved count stack
        (moved p target stack)
        (if is_stay p then [] else exits (top stack) ∷ enters (top (moved p target stack)) ∷ [])
unfolding replay
moved-Moved count p target [] fits all some_scene can = absurd (omega arith)
moved-Moved count stay target (x ∷ xs) fits all some_scene can = record {
  bounded = fits;
  scenes = all;
  balanced = refl;
}
moved-Moved count pop target (x ∷ []) fits all some_scene can = absurd (omega arith)
moved-Moved count pop target (x ∷ y ∷ ys) fits all some_scene can = record {
  bounded = omega arith;
  scenes = all.1;
  balanced = ground arith;
}
moved-Moved count push target (x ∷ xs) fits all some_scene can = record {
  bounded = omega arith;
  scenes = (can.0, all);
  balanced = ground arith;
}
moved-Moved count replace target (x ∷ xs) fits all some_scene can = record {
  bounded = omega arith;
  scenes = (can, all.1);
  balanced = ground arith;
}

-- A call ended well.
pub record Moves (s s' : SceneManager) (es : List Effect) : Type 0 where
  pub steady : IsSteady s'
  pub same_count : s'.count ≡ s.count
  pub balanced : replay (active s.stack) es ≡ some (active s'.stack)

nothing-Moves : (s : SceneManager) → IsSteady s → Moves s s []
unfolding replay
nothing-Moves s v = record { steady = v; same_count = refl; balanced = refl }

empty_stack : (xs : List ℕ) → length xs ≡ 0 → active xs ≡ none
empty_stack [] h = refl
empty_stack (x ∷ xs) h = absurd (omega arith)

start-Moves : (root : ℕ) (s : SceneManager) → IsSteady s → Moves s (start root s).1 (start root s).2
unfolding start replay
start-Moves root s v = elim (Bool-cases (s.busy || not (length s.stack == 0))) [
  | inl running ↦ rw running (nothing-Moves s v)
  | inr idle ↦
      elim (Bool-cases
        (not s.has_handlers || s.count == 0 || ltb capacity s.count || leb s.count root)) [
          | inl refused ↦ rw (idle, refused) (nothing-Moves s v)
          | inr fine ↦
              let was_empty : active s.stack ≡ none = empty_stack s.stack (ground arith) in
              let known : root < s.count = ground arith in
              rw (idle, fine)
                (record {
                  steady = record { bounded = omega arith; scenes = (known, tt); quiet = v.quiet };
                  same_count = refl;
                  balanced = rw was_empty refl;
                })
        ]
]

exit_top : (xs : List ℕ) → 0 < length xs → replay (active xs) (exits (top xs) ∷ []) ≡ some none
unfolding replay
exit_top [] h = absurd (omega arith)
exit_top (x ∷ xs) h = ground arith

stop-Moves : (s : SceneManager) → IsSteady s → Moves s (stop s).0 (stop s).1
unfolding stop
stop-Moves s v = elim (Bool-cases (s.busy || length s.stack == 0)) [
  | inl idle ↦ rw idle (nothing-Moves s v)
  | inr running ↦ rw running (record {
    steady = record { bounded = omega arith; scenes = tt; quiet = (v.quiet.0, v.quiet.1, refl) };
    same_count = refl;
    balanced = exit_top s.stack (ground arith);
  })
]

handle-Asked :
    (type : EventType) (asked : List (Transition × ℕ)) (handled : Bool) (s : SceneManager)
    → IsSteady s
    → Asked s (handle type asked handled s)
unfolding handle
handle-Asked type asked handled s v =
    let before = record s { busy = true; in_event = true } in
    let free_now : CanMove s.count s.pending s.target s.stack = rw v.quiet.2 tt in
    let a = requests-Asked asked before v.bounded free_now in
    elim (Bool-cases
      (not handled && is_back type && ltb 1 (length (requests asked before).stack))) [
        | inr kept ↦
            rw kept (record {
              same_stack = a.same_stack;
              same_count = a.same_count;
              can_move = a.can_move;
            })
        | inl goes_back ↦
            let b =
              request-Asked pop invalid_scene (requests asked before)
                (omega (arith, ap length a.same_stack, v.bounded)) a.can_move in
            rw goes_back (record {
              same_stack = b.same_stack ∙ a.same_stack;
              same_count = b.same_count ∙ a.same_count;
              can_move = b.can_move;
            })
      ]

apply-Moves :
    (s s1 : SceneManager)
    → IsSteady s
    → 0 < length s.stack
    → Asked s s1
    → Moves s
        (record (apply (record s1 { in_event = false })).0 { busy = false })
        (apply (record s1 { in_event = false })).1
unfolding apply replay
apply-Moves s s1 v some_scene a =
    let m =
      moved-Moved s1.count s1.pending s1.target s1.stack
        (omega (arith, ap length a.same_stack, v.bounded))
        (rw (a.same_stack, a.same_count) v.scenes) (omega (arith, ap length a.same_stack))
        a.can_move in
    elim (Bool-cases (is_stay s1.pending)) [
      | inl stays ↦ rw stays (record {
        steady = record {
          bounded = omega (arith, ap length a.same_stack, v.bounded);
          scenes = rw (a.same_stack, a.same_count) v.scenes;
          quiet = (refl, refl, is_stay-equal s1.pending stays);
        };
        same_count = a.same_count;
        balanced = ap (λ xs. some (active xs)) (sym a.same_stack);
      })
      | inr moves ↦ rw moves (record {
        steady = record { bounded = m.bounded; scenes = m.scenes; quiet = (refl, refl, refl) };
        same_count = a.same_count;
        balanced =
            subst (λ xs. replay (active xs) (steps s1) ≡ some (active (after s1))) a.same_stack
              (subst
                (λ b.
                  replay (active s1.stack) (if b then [] else steps s1) ≡ some (active (after s1)))
                moves m.balanced);
      })
    ]
  where
    after : SceneManager → List ℕ
    after s = moved s.pending s.target s.stack

    steps : SceneManager → List Effect
    steps s = exits (top s.stack) ∷ enters (top (after s)) ∷ []

    is_stay-equal : (p : Transition) → is_stay p ≡ true → p ≡ stay
    is_stay-equal stay h = refl
    is_stay-equal push h = absurd (ground arith)
    is_stay-equal replace h = absurd (ground arith)
    is_stay-equal pop h = absurd (ground arith)

dispatch-Moves :
    (type : EventType) (asked : List (Transition × ℕ)) (handled : Bool) (s : SceneManager)
    → IsSteady s
    → Moves s (dispatch type asked handled s).1 (dispatch type asked handled s).2
unfolding dispatch
dispatch-Moves type asked handled s v = elim (Bool-cases (s.busy || length s.stack == 0)) [
  | inl refused ↦ rw refused (nothing-Moves s v)
  | inr going ↦ rw going (
      apply-Moves s (handle type asked handled s) v (ground arith)
        (handle-Asked type asked handled s v))
]

-- A call from outside: a request outside an event is a call too, and is refused.
pub data Call : Type 0 where
  starts : ℕ → Call
  dispatches : EventType → List (Transition × ℕ) → Bool → Call
  asks : Transition → ℕ → Call
  stops : Call

unfoldable pub call : SceneManager → Call → SceneManager × List Effect
call s (starts root) = ((start root s).1, (start root s).2)
call s (dispatches type asked handled) =
    ((dispatch type asked handled s).1, (dispatch type asked handled s).2)
call s (asks t x) = ((request t x s).1, [])
call s stops = stop s

unfoldable pub run : SceneManager → List Call → SceneManager × List Effect
run s [] = (s, [])
run s (c ∷ cs) = let rest = run (call s c).0 cs in (rest.0, (call s c).1 ++ rest.1)

request_outside : (t : Transition) (x : ℕ) (s : SceneManager) → IsSteady s → (request t x s).1 ≡ s
unfolding request
request_outside t x s v = let away = v.quiet.1 in rw away refl

call-Moves : (s : SceneManager) (c : Call) → IsSteady s → Moves s (call s c).0 (call s c).1
unfolding call
call-Moves s (starts root) v = start-Moves root s v
call-Moves s (dispatches type asked handled) v = dispatch-Moves type asked handled s v
call-Moves s (asks t x) v =
    subst (λ s'. Moves s s' []) (sym (request_outside t x s v)) (nothing-Moves s v)
call-Moves s stops v = stop-Moves s v

-- From a steady state, after any calls and whatever the event handlers ask for, the stack holds at
-- most 8 scenes, each below the number of handlers, and no transition is left over; and over the
-- whole history a scene is entered only when none is active, only the active scene is left, and
-- the scene that is active at the end is the one on top of the stack.
pub run-Moves : (s : SceneManager) (cs : List Call) → IsSteady s → Moves s (run s cs).0 (run s cs).1
unfolding run
run-Moves s [] v = nothing-Moves s v
run-Moves s (c ∷ cs) v =
    let first = call-Moves s c v in
    let rest = run-Moves (call s c).0 cs first.steady in
    record {
      steady = rest.steady;
      same_count = rest.same_count ∙ first.same_count;
      balanced =
          replay-append (active s.stack) (active (call s c).0.stack) (call s c).1
            (run (call s c).0 cs).1 first.balanced
          ∙ rest.balanced;
    }
