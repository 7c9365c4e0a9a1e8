-- ===== src/Prelude/Word.antt =====
-- Machine words: `size_t` as a number below 2^64, `int` as the 32-bit pattern of its value.
use uco.Prelude.Tests.{ltb, if◌then◌else◌}
use Prim.Native.Nat.{ℕ, ◌+◌, ◌-◌, ◌%◌, ◌^◌, ◌≤◌, ◌<◌}
use mathlib.Core.Path.{◌≡◌}
use mathlib.Core.Bool.{Bool}
use native.Mathlib.Omega.{arith}

-- `a - b` on `size_t`.
unfoldable pub sub64 : ℕ → ℕ → ℕ
sub64 a b = (a + 2 ^ 64 - b) % 2 ^ 64

pub sub64_of_le : (a b : ℕ) → b ≤ a → a < 2 ^ 64 → sub64 a b ≡ a - b
unfolding sub64
sub64_of_le a b h k = omega arith

-- A `size_t` or `unsigned long long` stored in an `int`: its low 32 bits.
unfoldable pub int_of_size : ℕ → ℕ
int_of_size x = x % 2 ^ 32

-- An `int` converted to `size_t`, as in a comparison of the two: sign extension.
unfoldable pub size_of_int : ℕ → ℕ
size_of_int x = if ltb x (2 ^ 31) then x else x + (2 ^ 64 - 2 ^ 32)

-- `a < b` on `int`.
unfoldable pub int_lt : ℕ → ℕ → Bool
int_lt a b = ltb ((a + 2 ^ 31) % 2 ^ 32) ((b + 2 ^ 31) % 2 ^ 32)
