-- ===== src/Common/Words.antt =====
-- `TUInt32` and `TInt32` (Public/include/TypeDef.h) as 32-bit patterns over ℕ.
use Prim.Native.Nat.{ℕ, ◌+◌, ◌-◌, ◌%◌, ◌^◌}
use mathlib.Core.Bool.{Bool}
use zephyr_server.Common.Tests.{ltb, leb}

abbrev pub u32_mod : ℕ
u32_mod = 2 ^ 32

abbrev pub add32 : ℕ → ℕ → ℕ
add32 a b = (a + b) % 2 ^ 32

-- Subtraction that wraps, for operands below 2 ^ 32.
abbrev pub sub32 : ℕ → ℕ → ℕ
sub32 a b = (a + 2 ^ 32 - b) % 2 ^ 32

-- The pattern is that of a negative `TInt32`.
abbrev pub is_negative : ℕ → Bool
is_negative w = leb (2 ^ 31) w

-- `>` of two `TInt32` by their patterns.
abbrev pub above_signed : ℕ → ℕ → Bool
above_signed a b = ltb ((b + 2 ^ 31) % 2 ^ 32) ((a + 2 ^ 31) % 2 ^ 32)
