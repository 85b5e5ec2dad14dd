-- ===== src/Prelude/Words.antt =====
-- `i64` arithmetic: a word of 64 bits stands for the integer that it is in two's complement. Sums and
-- differences wrap around, as in a release build.
use Prim.Native.Nat.{ℕ, ◌+◌, ◌-◌, ◌%◌, ◌^◌, ◌<◌}
use mathlib.Core.Path.{◌≡◌}
use mathlib.Core.Bool.{Bool}
use native.Mathlib.Omega.{arith}
use wow_db.Prelude.Tests.{ltb, leb}

abbrev pub add_i64 : ℕ → ℕ → ℕ
add_i64 a b = (a + b) % 2 ^ 64

abbrev pub sub_i64 : ℕ → ℕ → ℕ
sub_i64 a b = (a + 2 ^ 64 - b) % 2 ^ 64

-- The order of the integers: the words, with the sign bit turned over.
abbrev pub biased : ℕ → ℕ
biased a = (a + 2 ^ 63) % 2 ^ 64

abbrev pub ltb_i64 : ℕ → ℕ → Bool
ltb_i64 a b = ltb (biased a) (biased b)

abbrev pub leb_i64 : ℕ → ℕ → Bool
leb_i64 a b = leb (biased a) (biased b)

pub add_i64-sub_i64 : (a b : ℕ) → a < 2 ^ 64 → b < 2 ^ 64 → add_i64 b (sub_i64 a b) ≡ a
add_i64-sub_i64 a b h k = omega arith
