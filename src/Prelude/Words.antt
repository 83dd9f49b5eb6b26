-- ===== src/Prelude/Words.antt =====
-- Machine words as native numbers: an operation on a w-bit word wraps at 2 ^ w.
use Prim.Native.Nat.{ℕ, ◌+◌, ◌-◌, ◌%◌, ◌^◌, ◌<◌}
use mathlib.Core.Path.{◌≡◌}
use mathlib.Core.Bool.{Bool}
use native.Mathlib.Omega.{arith}
use mentor_pi_ros.Prelude.Tests.{ltb}

abbrev pub u8 : ℕ → ℕ
u8 n = n % 2 ^ 8

abbrev pub u16 : ℕ → ℕ
u16 n = n % 2 ^ 16

abbrev pub u32 : ℕ → ℕ
u32 n = n % 2 ^ 32

abbrev pub u64 : ℕ → ℕ
u64 n = n % 2 ^ 64

abbrev pub u32_max : ℕ
u32_max = 2 ^ 32 - 1

abbrev pub u64_max : ℕ
u64_max = 2 ^ 64 - 1

abbrev pub add32 : ℕ → ℕ → ℕ
add32 a b = (a + b) % 2 ^ 32

-- `-` on ℕ stops at 0, so the modulus is added first.
abbrev pub sub32 : ℕ → ℕ → ℕ
sub32 a b = (a + 2 ^ 32 - b) % 2 ^ 32

-- `static_cast<std::int32_t>(w) >= 0` for a 32-bit word `w`.
abbrev pub is_nonneg32 : ℕ → Bool
is_nonneg32 w = ltb w (2 ^ 31)

-- Elapsed time is exact across one wrap of the 32-bit clock.
pub sub32-add32 : (a d : ℕ) → a < 2 ^ 32 → d < 2 ^ 32 → sub32 (add32 a d) a ≡ d
sub32-add32 a d ha hd = omega arith
