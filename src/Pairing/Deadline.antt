-- ===== src/Pairing/Deadline.antt =====
-- The deadlines of components/note4_companion/note4_pairing_bootstrap.cc over the wrap-around of the
-- 32-bit clock.
use zectrix_note4_platform.Base.{add32, arith, leb, u32_mod, ℕ, ◌<◌, ◌≡◌, ◌≤◌}
use zectrix_note4_platform.Pairing.{maximum_duration_ms, sanitize_duration, deadline_reached}

-- A deadline that was set `duration` ahead, for a duration that `SanitizeDuration` lets through, is
-- reached after less than 2^31 ms exactly when the duration is over, also where the clock wraps.
pub deadline_reached-add32 :
    (start elapsed value : ℕ)
    → start < u32_mod
    → elapsed < 0x8000_0000
    → deadline_reached (add32 start elapsed) (add32 start (sanitize_duration value))
      ≡ leb (sanitize_duration value) elapsed
deadline_reached-add32 start elapsed value s e =
    let small : sanitize_duration value ≤ maximum_duration_ms = ground arith in
    reached (sanitize_duration value) small
  where
    reached :
        (d : ℕ)
        → d ≤ maximum_duration_ms
        → deadline_reached (add32 start elapsed) (add32 start d) ≡ leb d elapsed
    reached d small = ground arith
