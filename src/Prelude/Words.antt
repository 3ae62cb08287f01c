-- ===== src/Prelude/Words.antt =====
-- Machine integers. A value of a w-bit type, signed ones included, is its two's complement bit
-- pattern, a number below 2 ^ w; signed order goes through the pattern moved by half the range.
use Prim.Native.Nat.{ℕ, ◌+◌, ◌-◌, ◌%◌, ◌^◌, ◌≤◌, ◌<◌}
use mathlib.Core.Path.{◌≡◌}
use mathlib.Core.Bool.{Bool, ◌&&◌}
use native.Mathlib.Omega.{arith}
use iqoption_test_task.Prelude.Tests.{ltb}

-- `int` arithmetic: + and -.
abbrev pub add32 : ℕ → ℕ → ℕ
add32 a b = (a + b) % 2 ^ 32

abbrev pub sub32 : ℕ → ℕ → ℕ
sub32 a b = (a + 2 ^ 32 - b) % 2 ^ 32

-- `0 < a` for an `int`.
abbrev pub positive32 : ℕ → Bool
positive32 a = ltb 0 a && ltb a (2 ^ 31)

-- Signed order on 32 and 64 bits is the order of these.
abbrev pub bias32 : ℕ → ℕ
bias32 a = (a + 2 ^ 31) % 2 ^ 32

abbrev pub bias64 : ℕ → ℕ
bias64 a = (a + 2 ^ 63) % 2 ^ 64

abbrev pub lt_s32 : ℕ → ℕ → Bool
lt_s32 a b = ltb (bias32 a) (bias32 b)

-- `long` arithmetic and order.
abbrev pub add64 : ℕ → ℕ → ℕ
add64 a b = (a + b) % 2 ^ 64

abbrev pub lt_s64 : ℕ → ℕ → Bool
lt_s64 a b = ltb (bias64 a) (bias64 b)

pub sub32_le : (a b : ℕ) → b ≤ a → a < 2 ^ 32 → sub32 a b ≡ a - b
sub32_le a b h k = omega arith

pub add32_lt : (a b : ℕ) → a + b < 2 ^ 32 → add32 a b ≡ a + b
add32_lt a b h = omega arith
