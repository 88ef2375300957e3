-- ===== src/Scene/Tests.antt =====
-- A run of the scene manager with four scenes.
use zectrix_note4_platform.Base.{List, [], arith, false, refl, true, ◌∷◌, ◌≡◌}
use zectrix_note4_platform.Scene.{
  construct, start, request, requests, apply, handle, dispatch, input, back, tick, push, replace,
  pop, enters, exits,
}
use zectrix_note4_platform.Scene.Balance.{
  Call, IsSteady, Moves, call, run, run-Moves, starts, dispatches, asks,
}

abbrev reading : List Call
reading =
    starts 0
    ∷ dispatches input ((push, 2) ∷ (push, 3) ∷ []) true
    ∷ dispatches tick ((replace, 1) ∷ []) false
    ∷ asks pop 0
    ∷ dispatches back [] false
    ∷ []

-- The second request of an event is refused, and Back returns to the root.
reading-effects :
    (run (construct true 4) reading).1
    ≡ enters 0 ∷ exits 0 ∷ enters 2 ∷ exits 2 ∷ enters 1 ∷ exits 1 ∷ enters 0 ∷ []
unfolding run call start dispatch handle requests request apply
reading-effects = refl

construct-IsSteady : IsSteady (construct true 4)
construct-IsSteady = record { bounded = omega arith; scenes = tt; quiet = (refl, refl, refl) }

run-Moves_example :
    Moves (construct true 4) (run (construct true 4) reading).0 (run (construct true 4) reading).1
run-Moves_example = run-Moves (construct true 4) reading construct-IsSteady
