-- ===== src/Base/Words.antt =====
-- `unsigned int` arithmetic, which wraps at 2^32, and `int` arithmetic, which must not overflow.
use Prim.Native.Nat.{ℕ, ◌+◌, ◌-◌, ◌*◌, ◌%◌, ◌^◌}
use mathlib.Core.Bool.{not}
use why3_fork.Base.Tests.{ltb, ◌==◌}
use why3_fork.Base.Results.{Result, ok, overflow, div_by_zero, guard, ◌>>◌}

abbrev pub u32_mod : ℕ
u32_mod = 2 ^ 32

abbrev pub add_u32 : ℕ → ℕ → ℕ
add_u32 a b = (a + b) % u32_mod

abbrev pub sub_u32 : ℕ → ℕ → ℕ
sub_u32 a b = (a + u32_mod - b) % u32_mod

abbrev pub mul_u32 : ℕ → ℕ → ℕ
mul_u32 a b = a * b % u32_mod

abbrev pub rem_u32 : ℕ → ℕ → Result ℕ
rem_u32 a b = do guard (not (b == 0)) div_by_zero; ok (a % b)

-- One more than INT_MAX.
abbrev pub int_limit : ℕ
int_limit = 2 ^ 31

-- The value of an `int` expression that is not negative.
abbrev pub int_value : ℕ → Result ℕ
int_value n = do guard (ltb n int_limit) overflow; ok n
