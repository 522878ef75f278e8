-- ===== src/Base/Words.antt =====
-- Go's `int64` and `int32` as bit patterns below 2^64 and 2^32. Comparison is signed.
use Prim.Native.Nat.{ℕ, ◌+◌, ◌-◌, ◌%◌, ◌<◌}
use mathlib.Core.Path.{◌≡◌}
use mathlib.Core.Bool.{Bool}
use native.Mathlib.Omega.{arith}
use zipstash.Base.Tests.{ltb}

abbrev pub two_63 : ℕ
two_63 = 9223372036854775808

abbrev pub two_64 : ℕ
two_64 = 18446744073709551616

abbrev pub two_32 : ℕ
two_32 = 4294967296

-- a + b and a - b on `int64`
unfoldable pub add64 : ℕ → ℕ → ℕ
add64 a b = (a + b) % two_64

unfoldable pub sub64 : ℕ → ℕ → ℕ
sub64 a b = (a + two_64 - b) % two_64

-- a + b on `int32`
unfoldable pub add32 : ℕ → ℕ → ℕ
add32 a b = (a + b) % two_32

-- a < b on `int64`: shifting both by 2^63 puts the negative patterns first
unfoldable pub slt64 : ℕ → ℕ → Bool
slt64 a b = ltb ((a + two_63) % two_64) ((b + two_63) % two_64)

-- a < b on `int32`
unfoldable pub slt32 : ℕ → ℕ → Bool
slt32 a b = ltb ((a + 2147483648) % two_32) ((b + 2147483648) % two_32)

pub slt64_small : (a b : ℕ) → a < two_63 → b < two_63 → slt64 a b ≡ ltb a b
unfolding slt64
slt64_small a b ha hb = ground arith

pub add64_small : (a b : ℕ) → a + b < two_64 → add64 a b ≡ a + b
unfolding add64
add64_small a b h = omega arith

pub add32_small : (a b : ℕ) → a + b < two_32 → add32 a b ≡ a + b
unfolding add32
add32_small a b h = omega arith

pub slt32_small : (a b : ℕ) → a < 2147483648 → b < 2147483648 → slt32 a b ≡ ltb a b
unfolding slt32
slt32_small a b ha hb = ground arith
