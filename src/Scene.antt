-- ===== src/Scene.antt =====
-- The stack of scenes of an application, components/note4_app/note4_scene_manager.cc and its header. The
-- handlers are the application's: what an event handler asks of the manager while it runs is an
-- argument, and the calls of enter and exit handlers are returned as effects, in order. Outside an
-- event a request is refused, so that enter and exit handlers change nothing here. `states_` and the
-- observer's snapshot have no part in the navigation and are left out.
pub mod Balance
mod Tests
use zectrix_note4_platform.Base.{
  Bool, List, [], false, if◌then◌else◌, leb, length, ltb, not, true, ℕ, ◌&&◌, ◌==◌, ◌||◌, ◌∷◌,
}

-- `kCapacity` and `kInvalidScene`.
abbrev pub capacity : ℕ
capacity = 8

abbrev pub invalid_scene : ℕ
invalid_scene = 255

-- Those values of `sdk::Status` that the manager returns.
pub data Status : Type 0 where
  ok invalid_state invalid_argument conflict not_found no_memory : Status

-- `SceneEvent::Type`.
pub data EventType : Type 0 where
  input back tick : EventType

pub data Transition : Type 0 where
  stay push replace pop : Transition

-- `stack` is `stack_[0 .. depth_)`, the current scene first; `has_handlers` is `handlers_ != nullptr`.
pub record SceneManager : Type 0 where
  pub has_handlers : Bool
  pub count : ℕ
  pub stack : List ℕ
  pub busy : Bool
  pub in_event : Bool
  pub pending : Transition
  pub target : ℕ

abbrev pub construct : Bool → ℕ → SceneManager
construct has_handlers count = record {
  has_handlers = has_handlers;
  count = count;
  stack = [];
  busy = false;
  in_event = false;
  pending = stay;
  target = invalid_scene;
}

pub data Effect : Type 0 where
  enters exits : ℕ → Effect

abbrev pub is_stay : Transition → Bool
is_stay stay = true
is_stay _ = false

abbrev pub is_pop : Transition → Bool
is_pop pop = true
is_pop _ = false

abbrev pub is_push : Transition → Bool
is_push push = true
is_push _ = false

abbrev pub is_back : EventType → Bool
is_back back = true
is_back _ = false

unfoldable pub start : ℕ → SceneManager → Status × SceneManager × List Effect
start root s =
    if s.busy || not (length s.stack == 0)
    then (invalid_state, s, [])
    else if not s.has_handlers || s.count == 0 || ltb capacity s.count || leb s.count root
    then (invalid_argument, s, [])
    else (ok, record s { stack = root ∷ [] }, enters root ∷ [])

-- `Request`, behind `Push`, `Replace` and `Pop`.
unfoldable pub request : Transition → ℕ → SceneManager → Status × SceneManager
request transition scene s =
    let asked = record s { pending = transition; target = scene } in
    if not s.in_event
    then (invalid_state, s)
    else if not (is_stay s.pending)
    then (conflict, s)
    else if is_pop transition
    then (if ltb (length s.stack) 2 then (not_found, s) else (ok, asked))
    else if leb s.count scene
    then (invalid_argument, s)
    else if is_push transition && length s.stack == capacity
    then (no_memory, s)
    else (ok, asked)

-- What an event handler asks for while it runs.
unfoldable pub requests : List (Transition × ℕ) → SceneManager → SceneManager
unfolding request
requests [] s = s
requests ((transition, scene) ∷ rest) s = requests rest (request transition scene s).1

abbrev pub popped : List ℕ → List ℕ
popped [] = []
popped (x ∷ xs) = xs

-- The stack after a transition.
abbrev pub moved : Transition → ℕ → List ℕ → List ℕ
moved stay target stack = stack
moved pop target stack = popped stack
moved push target stack = target ∷ stack
moved replace target stack = target ∷ popped stack

abbrev pub top : List ℕ → ℕ
top [] = invalid_scene
top (x ∷ xs) = x

-- `Apply`.
unfoldable pub apply : SceneManager → SceneManager × List Effect
apply s =
    let stack = moved s.pending s.target s.stack in
    if is_stay s.pending
    then (s, [])
    else (record s { pending = stay; stack = stack }, exits (top s.stack) ∷ enters (top stack) ∷ [])

-- The part of `Dispatch` in which the handler runs: it asks for `asked` and returns `handled`. A Back
-- that it does not handle pops.
unfoldable pub handle : EventType → List (Transition × ℕ) → Bool → SceneManager → SceneManager
unfolding requests request
handle type asked handled s =
    let after = requests asked (record s { busy = true; in_event = true }) in
    if not handled && is_back type && ltb 1 (length after.stack)
    then (request pop invalid_scene after).1
    else after

-- `Dispatch` of an event. The depth at the end of the handler is that before.
unfoldable pub dispatch :
    EventType → List (Transition × ℕ) → Bool → SceneManager → Bool × SceneManager × List Effect
unfolding handle apply
dispatch type asked handled s =
    let s1 = handle type asked handled s in
    let consumed =
      handled || (is_back type && ltb 1 (length s1.stack)) || not (is_stay s1.pending) in
    let done = apply (record s1 { in_event = false }) in
    if s.busy || length s.stack == 0
    then (false, s, [])
    else (consumed, record done.0 { busy = false }, done.1)

unfoldable pub stop : SceneManager → SceneManager × List Effect
stop s =
    if s.busy || length s.stack == 0
    then (s, [])
    else (record s { stack = []; pending = stay }, exits (top s.stack) ∷ [])
