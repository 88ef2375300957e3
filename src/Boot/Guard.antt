-- ===== src/Boot/Guard.antt =====
-- The boot guard, components/note4_system/note4_boot_guard.cc: `BeginBoot`, `ConfirmBoot` and
-- `SelectUpdateTarget`. What the backend returns during a call is an argument, and the call returns
-- what it asked of the backend, in order.
pub mod Watchdog
pub mod Protection
use zectrix_note4_platform.Base.{
  Bool, List, [], false, if◌then◌else◌, leb, ltb, not, true, ℕ, ◌==◌, ◌||◌, ◌∷◌,
}
use zectrix_note4_platform.Boot.{
  Partition, boot_confirmation_timeout_ms, Result, no_partition, same_kind, same_partition,
  ImageState, BootInfo, is_pending_verify, known_good, is_ok, since, verify_partitions, ok,
  invalid_argument, invalid_state, confirmation_required, image_too_large, timeout, ota_a, ota_b,
  unknown, valid_image,
}

-- `BootStatus`.
pub record BootStatus : Type 0 where
  pub running : Partition
  pub boot : Partition
  pub next_update : Partition
  pub image_state : ImageState
  pub layout_result : Result
  pub confirmation_pending : Bool
  pub rollback_available : Bool

pub data Phase : Type 0 where
  initial pending ready failed : Phase

pub record Guard : Type 0 where
  pub status : BootStatus
  pub started_ms : ℕ
  pub phase : Phase

abbrev pub fresh : Guard
fresh = record {
  status = record {
    running = no_partition;
    boot = no_partition;
    next_update = no_partition;
    image_state = unknown;
    layout_result = invalid_state;
    confirmation_pending = false;
    rollback_available = false;
  };
  started_ms = 0;
  phase = initial;
}

-- What the backend answers during one call: the clock at its two readings, arming the watchdog, the
-- boot metadata, and the confirmation.
pub record Answers : Type 0 where
  pub now : ℕ
  pub later : ℕ
  pub armed : Result
  pub read : Result
  pub info : BootInfo
  pub confirmed : Result

-- A change that is asked of the backend.
pub data Effect : Type 0 where
  arms : ℕ → Effect
  disarms : Effect
  confirms : Partition → Result → Effect

abbrev pub Outcome : Type 0
Outcome = Result × Guard × List Effect

abbrev pub in_slot : Partition → Bool
in_slot p = same_kind p.kind ota_a || same_kind p.kind ota_b

abbrev pub status_of : BootInfo → BootStatus
status_of info = record {
  running = info.running;
  boot = info.boot;
  next_update = info.next_update;
  image_state = info.image_state;
  layout_result = (verify_partitions info).0;
  confirmation_pending = false;
  rollback_available = info.rollback_available;
}

-- `BeginBoot` behind the metadata, with the guard as it is then.
abbrev pub begin_with : Guard → BootInfo → Outcome
begin_with g info =
    if known_good info
    then (ok, record g { phase = ready }, arms boot_confirmation_timeout_ms ∷ disarms ∷ [])
    else if not (is_pending_verify info.image_state) || not (in_slot info.running)
    then (invalid_state, g, arms boot_confirmation_timeout_ms ∷ [])
    else if not (is_ok g.status.layout_result)
    then (g.status.layout_result, g, arms boot_confirmation_timeout_ms ∷ [])
    else (
      ok,
      record g { status = record g.status { confirmation_pending = true }; phase = pending },
      arms boot_confirmation_timeout_ms ∷ [],
    )

abbrev pub first_boot : Guard → Answers → Outcome
first_boot g w =
    let g1 = record g { phase = failed; started_ms = w.now } in
    if not (is_ok w.armed)
    then (w.armed, g1, arms boot_confirmation_timeout_ms ∷ [])
    else if not (is_ok w.read)
    then (w.read, g1, arms boot_confirmation_timeout_ms ∷ [])
    else begin_with (record g1 { status = status_of w.info }) w.info

unfoldable pub begin_boot : Guard → Answers → Outcome
unfolding verify_partitions
begin_boot g w = elim g.phase [
  | initial ↦ first_boot g w
  | failed ↦ (invalid_state, g, [])
  | pending ↦ (ok, g, [])
  | ready ↦ (ok, g, [])
]

-- The tests of `ConfirmBoot` between the metadata and the confirmation, `kOk` so far.
abbrev pub confirmable : Guard → Answers → Result
confirmable g w =
    if not (is_ok w.read)
    then w.read
    else if not (is_ok (verify_partitions w.info).0)
    then (verify_partitions w.info).0
    else if not (same_partition w.info.running g.status.running)
        || not (is_pending_verify w.info.image_state)
    then invalid_state
    else if leb boot_confirmation_timeout_ms (since g.started_ms w.later)
    then timeout
    else ok

abbrev pub confirm_pending : Guard → Answers → Outcome
confirm_pending g w =
    if leb boot_confirmation_timeout_ms (since g.started_ms w.now)
    then (timeout, record g { phase = failed }, [])
    else if not (is_ok (confirmable g w))
    then (confirmable g w, record g { phase = failed }, [])
    else if not (is_ok w.confirmed)
    then (w.confirmed, record g { phase = failed }, confirms g.status.running w.confirmed ∷ [])
    else (
      ok,
      record g {
        status = record g.status { image_state = valid_image; confirmation_pending = false };
        phase = ready;
      },
      confirms g.status.running ok ∷ disarms ∷ [],
    )

unfoldable pub confirm_boot : Guard → Answers → Outcome
unfolding verify_partitions
confirm_boot g w = elim g.phase [
  | ready ↦ (ok, g, [])
  | pending ↦ confirm_pending g w
  | initial ↦ (invalid_state, g, [])
  | failed ↦ (invalid_state, g, [])
]

abbrev pub select_ready : Guard → Answers → ℕ → Result × Partition
select_ready g w image_bytes =
    if not (is_ok w.read)
    then (w.read, no_partition)
    else if not (known_good w.info) || not (same_partition w.info.running g.status.running)
    then (invalid_state, no_partition)
    else elim (verify_partitions w.info).0 [
      | ok ↦
          if ltb (verify_partitions w.info).1.size image_bytes
          then (image_too_large, no_partition)
          else (ok, (verify_partitions w.info).1)
      | bad ↦ (bad, no_partition)
    ]

-- The result and `*target`; a null pointer is not modelled.
unfoldable pub select_update_target : Guard → Answers → ℕ → Result × Partition
unfolding verify_partitions
select_update_target g w image_bytes =
    if image_bytes == 0 then (invalid_argument, no_partition) else elim g.phase [
      | pending ↦ (confirmation_required, no_partition)
      | initial ↦ (invalid_state, no_partition)
      | failed ↦ (invalid_state, no_partition)
      | ready ↦ select_ready g w image_bytes
    ]
