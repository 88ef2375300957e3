-- ===== src/Health/Recovery.antt =====
-- Recovery is asked for after three failures in a row of one generation, and a missed deadline is
-- never made good. components/note4_system/note4_health_supervisor.cc.
use zectrix_note4_platform.Base.{Bool, List, [], any, arith, false, true, ℕ, ◌∷◌, ◌≡◌}
use zectrix_note4_platform.Health.{
  suppress_automatic_apps, Supervisor, ResetReason, Effect, start, progress, complete_foreground,
  begin_recovery, set_storage_error, set_reset_reason, disarm_for_power_transition, feeds,
}

pub data Call : Type 0 where
  starts : ℕ → ℕ → Call
  progresses : ℕ → Call
  completes : ℕ → ℕ → ℕ → Call
  recovers sets_storage_error : ℕ → Call
  sets_reset_reason : ResetReason → Call
  suppresses_apps disarms_watchdog : Call

pub call : Supervisor → Call → Supervisor × List Effect
call s (starts now armed) = ((start now armed s).1, (start now armed s).2)
call s (progresses now) = ((progress now s).1, (progress now s).2)
call s (completes now error generation) =
    ((complete_foreground now error generation s).1, (complete_foreground now error generation s).2)
call s (recovers error) = (begin_recovery error s, [])
call s (sets_storage_error error) = (set_storage_error error s, [])
call s (sets_reset_reason reason) = (set_reset_reason reason s, [])
call s suppresses_apps = (suppress_automatic_apps s, [])
call s disarms_watchdog = disarm_for_power_transition s

unfoldable pub run : Supervisor → List Call → Supervisor
run s [] = s
run s (c ∷ cs) = run (call s c).0 cs

abbrev pub is_feed : Effect → Bool
is_feed feeds = true
is_feed _ = false

-- Once the deadline was missed.
pub record Expired (s s' : Supervisor) (es : List Effect) : Type 0 where
  pub still : s'.snapshot.watchdog_expired ≡ true
  pub unfed : any is_feed es ≡ false
  pub same_progress : s'.snapshot.last_progress_ms ≡ s.snapshot.last_progress_ms

call-Expired :
    (s : Supervisor) (c : Call)
    → s.snapshot.watchdog_expired ≡ true
    → Expired s (call s c).0 (call s c).1
unfolding call start progress complete_foreground begin_recovery suppress_automatic_apps
    set_storage_error set_reset_reason disarm_for_power_transition
call-Expired s c late = ground arith

run-expired :
    (s : Supervisor) (cs : List Call)
    → s.snapshot.watchdog_expired ≡ true
    → (run s cs).snapshot.watchdog_expired ≡ true
unfolding run
run-expired s [] late = late
run-expired s (c ∷ cs) late = run-expired (call s c).0 cs (call-Expired s c late).still

-- Once the watchdog's deadline was missed, it stays missed after any further calls, and no later
-- call feeds the watchdog or moves the time of the last progress.
pub run-Expired :
    (s : Supervisor) (cs : List Call) (c : Call)
    → s.snapshot.watchdog_expired ≡ true
    → Expired (run s cs) (call (run s cs) c).0 (call (run s cs) c).1
run-Expired s cs c late = call-Expired (run s cs) c (run-expired s cs late)

-- Foreground runs that all fail in one generation, with the clock's reading and the error of each.
pub fails : Supervisor → ℕ → List (ℕ × ℕ) → Supervisor
fails s generation [] = s
fails s generation ((now, error) ∷ es) =
    fails (complete_foreground now error generation s).1 generation es
