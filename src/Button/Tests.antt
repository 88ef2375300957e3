-- ===== src/Button/Tests.antt =====
-- Runs of the buffer.
use zectrix_note4_platform.Base.{
  [], arith, false, inl, map, refl, replicate, some, true, ◌++◌, ◌∷◌, ◌≡◌,
}
use zectrix_note4_platform.Button.{
  Event, Buffer, down, ok, click, long_press, is_shutdown, is_closed, is_direction, newest, victim,
  push_full, push, pop, erase,
}
use zectrix_note4_platform.Button.Retention.{Pushed, push-Pushed}
use zectrix_note4_platform.Button.Shutdown.{
  pushes, pops, run, IsSound, run-IsSound, push-shutdown-pop,
}

abbrev confirm : Event
confirm = record { button = ok; action = click }

abbrev back : Event
back = record { button = ok; action = long_press }

abbrev step_down : Event
step_down = record { button = down; action = click }

abbrev shutdown : Event
shutdown = record { button = down; action = long_press }

abbrev busy : Buffer
busy = confirm ∷ step_down ∷ replicate 14 confirm

-- A full buffer gives up its newest direction for a long press on OK.
back_replaces_direction : push back busy ≡ (true, replicate 15 confirm ++ back ∷ [])
unfolding push is_shutdown is_closed push_full is_direction victim newest erase
back_replaces_direction = refl

direction_turned_away : push step_down busy ≡ (false, busy)
unfolding push is_shutdown is_closed push_full is_direction
direction_turned_away = refl

push-Pushed_example : Pushed back busy (push back busy)
push-Pushed_example = push-Pushed back busy

empty-IsSound : IsSound []
empty-IsSound = record { bounded = omega arith; alone = inl tt }

run-IsSound_example : IsSound (run [] (pushes confirm ∷ pushes shutdown ∷ pushes back ∷ pops ∷ []))
run-IsSound_example =
    run-IsSound [] (pushes confirm ∷ pushes shutdown ∷ pushes back ∷ pops ∷ []) empty-IsSound

push-shutdown-pop_example :
    (x : Event) × (is_shutdown x ≡ true)
    × (pop (run (push shutdown busy).1 (map pushes (confirm ∷ back ∷ []))) ≡ (some x, []))
unfolding is_shutdown
push-shutdown-pop_example = push-shutdown-pop shutdown busy (confirm ∷ back ∷ []) refl
