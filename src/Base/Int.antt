-- ===== src/Base/Int.antt =====
-- Signed integers over the native numbers: `negsuc n` is -(n + 1).
use Prim.Native.Nat.{ℕ, ◌-◌, ◌%◌}
use mathlib.Core.Bool.{Bool, true, false}
use zectrix_note4_platform.Base.Tests.{ltb, leb, if◌then◌else◌}
use zectrix_note4_platform.Base.Words.{u32_mod}

pub data ℤ : Type 0 where
  pos : ℕ → ℤ
  negsuc : ℕ → ℤ

abbrev pub ltb_int : ℤ → ℤ → Bool
ltb_int (pos a) (pos b) = ltb a b
ltb_int (pos a) (negsuc b) = false
ltb_int (negsuc a) (pos b) = true
ltb_int (negsuc a) (negsuc b) = ltb b a

-- The conversion of an `int32_t` to `uint32_t`, and back.
abbrev pub to_u32 : ℤ → ℕ
to_u32 (pos n) = n % u32_mod
to_u32 (negsuc n) = (u32_mod - 1) - n % u32_mod

abbrev pub of_u32 : ℕ → ℤ
of_u32 n = if leb n 0x7fff_ffff then pos n else negsuc ((u32_mod - 1) - n)
