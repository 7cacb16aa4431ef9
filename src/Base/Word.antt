-- ===== src/Base/Word.antt =====
-- C integers as bit patterns: an `int` or `unsigned int` is a number below 2 ^ 32, a `size_t` or
-- `ssize_t` one below 2 ^ 64. A negative value is its two's complement.
use progetto_sol_unipi.Base.Tests.{ltb, if◌then◌else◌}
use Prim.Native.Nat.{ℕ, ◌+◌, ◌-◌, ◌%◌, ◌^◌}
use mathlib.Core.Bool.{Bool, ◌&&◌}

abbrev pub u32 : ℕ → ℕ
u32 x = x % 2 ^ 32

abbrev pub u64 : ℕ → ℕ
u64 x = x % 2 ^ 64

abbrev pub add32 : ℕ → ℕ → ℕ
add32 a b = u32 (a + b)

abbrev pub add64 : ℕ → ℕ → ℕ
add64 a b = u64 (a + b)

-- `-` on ℕ stops at 0, so the modulus is added first.
abbrev pub sub32 : ℕ → ℕ → ℕ
sub32 a b = u32 (a + 2 ^ 32 - u32 b)

abbrev pub sub64 : ℕ → ℕ → ℕ
sub64 a b = u64 (a + 2 ^ 64 - u64 b)

-- An `int` converted to a 64-bit type: its sign is extended.
abbrev pub extend : ℕ → ℕ
extend x = if ltb x (2 ^ 31) then x else x + (2 ^ 64 - 2 ^ 32)

-- `0 < x` of an `int` and of an `ssize_t`.
abbrev pub is_positive32 : ℕ → Bool
is_positive32 x = ltb 0 x && ltb x (2 ^ 31)

abbrev pub is_positive64 : ℕ → Bool
is_positive64 x = ltb 0 x && ltb x (2 ^ 63)

-- `-1` as an `int`.
abbrev pub minus_one32 : ℕ
minus_one32 = 2 ^ 32 - 1
