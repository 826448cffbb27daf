-- ===== src/Base/Word.antt =====
-- Machine words as native numbers and integers: the ranges of `u64` and `i64`, and the checked and
-- saturating operations of Rust on them. A `u64::saturating_sub` is `-` on the native numbers.
use katpool.Base.Tests.{leb, if◌then◌else◌}
use katpool.Base.Int.{ℤ, pos, negsuc, ◌+ℤ◌, ◌-ℤ◌, ◌≤ℤ◌, ltb_ℤ}
use Prim.Native.Nat.{ℕ, ◌+◌, ◌*◌}
use mathlib.Core.Path.{◌≡◌}
use mathlib.Core.Option.{Option, none, some}
use native.Mathlib.Omega.{arith}

abbrev pub u64_max : ℕ
u64_max = 18_446_744_073_709_551_615

abbrev pub i64_max : ℕ
i64_max = 9_223_372_036_854_775_807

abbrev pub u128_max : ℕ
u128_max = 340_282_366_920_938_463_463_374_607_431_768_211_455

abbrev pub add_sat_u64 : ℕ → ℕ → ℕ
add_sat_u64 a b = if leb (a + b) u64_max then a + b else u64_max

abbrev pub mul_sat_u64 : ℕ → ℕ → ℕ
mul_sat_u64 a b = if leb (a * b) u64_max then a * b else u64_max

-- `i64::checked_mul` of two values that are not negative.
abbrev pub checked_mul_i64 : ℕ → ℕ → Option ℕ
checked_mul_i64 a b = if leb (a * b) i64_max then some (a * b) else none

-- `i64::try_from` of a `u64`.
abbrev pub i64_of_u64 : ℕ → Option ℕ
i64_of_u64 a = if leb a i64_max then some a else none

-- The nearest `i64`.
unfoldable pub clamp_i64 : ℤ → ℤ
clamp_i64 a =
    if ltb_ℤ (pos i64_max) a
    then pos i64_max
    else if ltb_ℤ a (negsuc i64_max)
    then negsuc i64_max
    else a

abbrev pub add_sat_i64 : ℤ → ℤ → ℤ
add_sat_i64 a b = clamp_i64 (a +ℤ b)

abbrev pub sub_sat_i64 : ℤ → ℤ → ℤ
sub_sat_i64 a b = clamp_i64 (a -ℤ b)

pub clamp_i64_in_range : (a : ℤ) → negsuc i64_max ≤ℤ a → a ≤ℤ pos i64_max → clamp_i64 a ≡ a
unfolding clamp_i64
clamp_i64_in_range a lo hi = ground arith
