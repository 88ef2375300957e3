-- ===== src/Health/Tests.antt =====
-- Runs of the health supervisor.
use zectrix_note4_platform.Base.{[], refl, true, ◌∷◌}
use zectrix_note4_platform.Health.{Supervisor, fresh}
use zectrix_note4_platform.Health.Recovery.{
  call, run, Expired, run-Expired, starts, progresses, recovers,
}

abbrev missed : Supervisor
missed = record fresh {
  snapshot = record fresh.snapshot { watchdog_armed = true; watchdog_expired = true };
}

run-Expired_example :
    Expired
      (run missed (starts 5 0 ∷ recovers 7 ∷ []))
      (call (run missed (starts 5 0 ∷ recovers 7 ∷ [])) (progresses 9)).0
      (call (run missed (starts 5 0 ∷ recovers 7 ∷ [])) (progresses 9)).1
run-Expired_example = run-Expired missed (starts 5 0 ∷ recovers 7 ∷ []) (progresses 9) refl
