-- ===== src/Button.antt =====
-- The bounded buffer of button events, components/note4_board/include/note4_button_buffer.h.
-- `events_[0 .. size_)` is the list; slots from `size_` on are never read. The lock that the board
-- takes around each call makes every operation one step.
pub mod Retention
pub mod Shutdown
mod Tests
use zectrix_note4_platform.Base.{
  Bool, List, Option, [], false, if◌then◌else◌, length, none, not, some, suc, true, zero, ℕ, ◌&&◌,
  ◌++◌, ◌==◌, ◌∷◌,
}

pub data Button : Type 0 where
  up down ok : Button

pub data Action : Type 0 where
  click long_press wake : Action

pub record Event : Type 0 where
  pub button : Button
  pub action : Action

abbrev pub Buffer : Type 0
Buffer = List Event

abbrev pub capacity : ℕ
capacity = 16

abbrev is_ok : Button → Bool
is_ok ok = true
is_ok _ = false

abbrev is_down : Button → Bool
is_down down = true
is_down _ = false

abbrev pub is_click : Action → Bool
is_click click = true
is_click _ = false

abbrev pub is_long_press : Action → Bool
is_long_press long_press = true
is_long_press _ = false

abbrev pub is_wake : Action → Bool
is_wake wake = true
is_wake _ = false

unfoldable pub is_direction : Event → Bool
is_direction e = is_click e.action && not (is_ok e.button)

unfoldable pub is_shutdown : Event → Bool
is_shutdown e = is_down e.button && is_long_press e.action

-- The index that the loop from `size_` down to 1 stops at.
unfoldable pub newest : (Event → Bool) → Buffer → Option ℕ
newest p [] = none
newest p (e ∷ es) = elim (newest p es) [
  | some i ↦ some (suc i)
  | none ↦ if p e then some 0 else none
]

-- `Erase`: the later events move down by one.
unfoldable pub erase : ℕ → Buffer → Buffer
erase i [] = []
erase zero (e ∷ es) = es
erase (suc i) (e ∷ es) = e ∷ erase i es

-- The slot that a full buffer gives up: the newest direction, or for a long press the newest click.
unfoldable pub victim : Event → Buffer → Option ℕ
victim e es = elim (newest is_direction es) [
  | some i ↦ some i
  | none ↦ if is_long_press e.action then newest (λ x. is_click x.action) es else none
]

unfoldable pub push_full : Event → Buffer → Bool × Buffer
push_full e es =
    if is_direction e
    then (false, es)
    else elim (victim e es) [ none ↦ (false, es) | some i ↦ (true, erase i es ++ e ∷ []) ]

-- `size_ != 0 && IsShutdown(events_[0])`.
unfoldable pub is_closed : Buffer → Bool
is_closed [] = false
is_closed (e ∷ es) = is_shutdown e

unfoldable pub push : Event → Buffer → Bool × Buffer
push e es =
    if is_wake e.action
    then (false, es)
    else if is_shutdown e
    then (true, e ∷ [])
    else if is_closed es
    then (false, es)
    else if length es == capacity
    then push_full e es
    else (true, es ++ e ∷ [])

unfoldable pub pop : Buffer → Option Event × Buffer
pop [] = (none, [])
pop (e ∷ es) = (some e, erase 0 (e ∷ es))
