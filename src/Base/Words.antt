-- ===== src/Base/Words.antt =====
-- Go's `uint64`: sums and differences wrap around at 2 ^ 64.
use Prim.Native.Nat.{ℕ, ◌+◌, ◌-◌, ◌%◌, ◌≤◌, ◌<◌}
use mathlib.Core.Path.{◌≡◌}
use native.Mathlib.Omega.{arith}

abbrev pub u64_mod : ℕ
u64_mod = 18446744073709551616

abbrev pub u64 : ℕ → ℕ
u64 n = n % 18446744073709551616

-- a - b
abbrev pub sub64 : ℕ → ℕ → ℕ
sub64 a b = u64 (a + 18446744073709551616 - b)

pub u64_small : (n : ℕ) → n < u64_mod → u64 n ≡ n
u64_small n h = omega arith

pub sub64_small : (a b : ℕ) → b ≤ a → a < u64_mod → sub64 a b ≡ a - b
sub64_small a b h k = omega arith
