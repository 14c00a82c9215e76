-- ===== src/Prelude/Int64.antt =====
-- Go's `int64` as a bit pattern below 2^64: a pattern from 2^63 up stands for a negative number.
use trqsh.Prelude.Tests.{nat_beq, leb}
use Prim.Native.Nat.{ℕ, ◌+◌, ◌%◌, ◌^◌, ◌<◌}
use mathlib.Core.Path.{◌≡◌}
use mathlib.Core.Bool.{Bool, ◌||◌}
use native.Mathlib.Omega.{arith}

abbrev pub int64_mod : ℕ
int64_mod = 2 ^ 64

abbrev pub int64_min : ℕ
int64_min = 2 ^ 63

-- a + b, with Go's wrap-around
abbrev pub add64 : ℕ → ℕ → ℕ
add64 a b = (a + b) % int64_mod

-- a <= 0
abbrev pub nonpos64 : ℕ → Bool
nonpos64 a = nat_beq a 0 || leb int64_min a

-- a >= b, which compares the patterns after a shift by 2^63
abbrev pub geb64 : ℕ → ℕ → Bool
geb64 a b = leb ((b + int64_min) % int64_mod) ((a + int64_min) % int64_mod)

pub add64_exact : (a b : ℕ) → a + b < int64_min → add64 a b ≡ a + b
add64_exact a b h = omega arith
