-- ===== src/Health.antt =====
-- The foreground's health: components/note4_system/note4_health_supervisor.cc, with the snapshot of
-- include/note4_system_snapshot.h. The clock's reading and the answer to `Arm` are arguments; a call
-- returns what it asked of the watchdog.
pub mod Recovery
mod Tests
use zectrix_note4_platform.Base.{
  Bool, List, [], false, if◌then◌else◌, leb, ltb, max, not, true, u32_max, ℕ, ◌%◌, ◌+◌, ◌-◌, ◌==◌,
  ◌||◌, ◌∷◌,
}

-- `kForegroundWatchdogMs` and `kForegroundFailureLimit`.
abbrev pub foreground_watchdog_ms : ℕ
foreground_watchdog_ms = 90000

abbrev pub foreground_failure_limit : ℕ
foreground_failure_limit = 3

pub data ResetReason : Type 0 where
  unknown power_on software panic watchdog deep_sleep brownout external usb : ResetReason

-- An error is an `int32_t` that is only compared with 0 and copied, kept as its 32 bits.
pub record HealthSnapshot : Type 0 where
  pub last_progress_ms : ℕ
  pub maximum_gap_ms : ℕ
  pub heartbeats : ℕ
  pub failures : ℕ
  pub recoveries : ℕ
  pub last_error : ℕ
  pub storage_error : ℕ
  pub consecutive_failures : ℕ
  pub watchdog_armed : Bool
  pub watchdog_expired : Bool
  pub recovery_boot : Bool
  pub automatic_apps_suppressed : Bool

pub record Supervisor : Type 0 where
  pub snapshot : HealthSnapshot
  pub generation : ℕ

pub data Effect : Type 0 where
  arms : ℕ → Effect
  feeds disarms : Effect

abbrev pub fresh : Supervisor
fresh = record {
  snapshot = record {
    last_progress_ms = 0;
    maximum_gap_ms = 0;
    heartbeats = 0;
    failures = 0;
    recoveries = 0;
    last_error = 0;
    storage_error = 0;
    consecutive_failures = 0;
    watchdog_armed = false;
    watchdog_expired = false;
    recovery_boot = false;
    automatic_apps_suppressed = false;
  };
  generation = 0;
}

-- `Increment`.
abbrev pub increment : ℕ → ℕ
increment value = if value == u32_max then value else value + 1

-- The results of `Start`: `ESP_OK`, `ESP_ERR_TIMEOUT`, or what the watchdog returned.
pub data Started : Type 0 where
  ok timeout : Started
  refused : ℕ → Started

-- `armed` is the code that `Arm` returns, 0 for `ESP_OK`.
unfoldable pub start : ℕ → ℕ → Supervisor → Started × Supervisor × List Effect
start now armed s =
    if s.snapshot.watchdog_expired
    then (timeout, s, [])
    else if s.snapshot.watchdog_armed
    then (ok, s, [])
    else if not (armed == 0)
    then (refused armed, s, arms foreground_watchdog_ms ∷ [])
    else (
      ok,
      record s { snapshot = record s.snapshot { last_progress_ms = now; watchdog_armed = true } },
      arms foreground_watchdog_ms ∷ [],
    )

abbrev u64_mod : ℕ
u64_mod = 0x1_0000_0000_0000_0000

-- The difference of two `uint64_t`.
abbrev pub gap_of : ℕ → ℕ → ℕ
gap_of now last = (now + u64_mod - last) % u64_mod

abbrev pub is_late : ℕ → HealthSnapshot → Bool
is_late now h =
    ltb now h.last_progress_ms || leb foreground_watchdog_ms (gap_of now h.last_progress_ms)

unfoldable pub progress : ℕ → Supervisor → Bool × Supervisor × List Effect
progress now s =
    let measured = record s.snapshot {
      maximum_gap_ms = max s.snapshot.maximum_gap_ms (gap_of now s.snapshot.last_progress_ms);
    } in
    if s.snapshot.watchdog_expired
    then (false, s, [])
    else if not s.snapshot.watchdog_armed
    then (true, s, [])
    else if is_late now s.snapshot
    then (false, record s { snapshot = record measured { watchdog_expired = true } }, [])
    else (
      true,
      record s {
        snapshot = record measured {
          last_progress_ms = now;
          heartbeats = increment s.snapshot.heartbeats;
        };
      },
      feeds ∷ [],
    )

-- `CompleteForeground` behind its call of `Progress`.
abbrev pub count_foreground : ℕ → ℕ → Supervisor → Bool × Supervisor
count_foreground error generation s =
    let streak =
      if not (generation == s.generation) || error == 0
      then 0
      else s.snapshot.consecutive_failures in
    let next = if ltb streak foreground_failure_limit then streak + 1 else streak in
    if error == 0
    then (
      false,
      record s {
        snapshot = record s.snapshot { consecutive_failures = streak };
        generation = generation;
      },
    )
    else (
      next == foreground_failure_limit,
      record s {
        snapshot = record s.snapshot {
          last_error = error;
          failures = increment s.snapshot.failures;
          consecutive_failures = next;
        };
        generation = generation;
      },
    )

unfoldable pub complete_foreground : ℕ → ℕ → ℕ → Supervisor → Bool × Supervisor × List Effect
unfolding progress
complete_foreground now error generation s =
    let (alive, s', es) = progress now s in
    let (recover, s'') = count_foreground error generation s' in (recover, s'', es)

unfoldable pub begin_recovery : ℕ → Supervisor → Supervisor
begin_recovery error s = record s {
  snapshot = record s.snapshot {
    recoveries = increment s.snapshot.recoveries;
    last_error = error;
    consecutive_failures = 0;
    automatic_apps_suppressed = true;
  };
}

unfoldable pub suppress_automatic_apps : Supervisor → Supervisor
suppress_automatic_apps s = record s {
  snapshot = record s.snapshot { automatic_apps_suppressed = true };
}

unfoldable pub set_storage_error : ℕ → Supervisor → Supervisor
set_storage_error error s = record s {
  snapshot = record s.snapshot {
    storage_error = error;
    automatic_apps_suppressed =
        if not (error == 0) then true else s.snapshot.automatic_apps_suppressed;
  };
}

abbrev pub is_recovery : ResetReason → Bool
is_recovery panic = true
is_recovery watchdog = true
is_recovery _ = false

unfoldable pub set_reset_reason : ResetReason → Supervisor → Supervisor
set_reset_reason reason s = record s {
  snapshot = record s.snapshot {
    recovery_boot = is_recovery reason;
    automatic_apps_suppressed =
        if is_recovery reason then true else s.snapshot.automatic_apps_suppressed;
  };
}

unfoldable pub disarm_for_power_transition : Supervisor → Supervisor × List Effect
disarm_for_power_transition s =
    if not s.snapshot.watchdog_armed
    then (s, [])
    else (record s { snapshot = record s.snapshot { watchdog_armed = false } }, disarms ∷ [])
