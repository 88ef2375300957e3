-- ===== src/Services/Tests.antt =====
-- A start of three services of which the last one fails.
use zectrix_note4_platform.Base.{[], false, if◌then◌else◌, refl, true, ℕ, ◌+◌, ◌==◌, ◌∷◌, ◌≡◌, ◌⊎◌}
use zectrix_note4_platform.Services.{Registry, Entry, Callbacks, is_ok, start_all, configuring}
use zectrix_note4_platform.Services.Lifecycle.{Started, Undone, start_all-Started}

abbrev entry : ℕ → Entry
entry x = record { key = x + 10; service = x; entered = false; is_running = false }

abbrev three : Registry
three = record { entries = entry 1 ∷ entry 2 ∷ entry 3 ∷ []; phase = configuring }

abbrev last_fails : ℕ → Callbacks
last_fails x = record {
  init = 0;
  start = if x == 3 then 258 else 0;
  has_interface = true;
  stop = 0;
}

start_all-Started_example :
    (is_ok (start_all last_fails three).0 ≡ true) × Started last_fails (start_all last_fails three)
    ⊎ (is_ok (start_all last_fails three).0 ≡ false) × Undone (start_all last_fails three)
start_all-Started_example =
    start_all-Started last_fails three refl ((refl, refl), ((refl, refl), ((refl, refl), tt)))
