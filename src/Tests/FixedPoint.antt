-- ===== src/Tests/FixedPoint.antt =====
-- A number type with six decimals, in the place of `f64`.
use katpool.Base.{ℕ, ◌+◌, ◌-◌, ◌*◌, ◌/◌, ◌≤◌, ◌≡◌, true, false, leb, ltb, ◌==◌, min, arith}
use katpool.Base.Float.{Float}

pub truncation-le : (x n : ℕ) → leb x 0 ≡ false → leb (n * 1_000_000) x ≡ false → x / 1_000_000 ≤ n
truncation-le x n h k = ground arith

abbrev pub fixed_point : Float
fixed_point = record {
  F = ℕ;
  zero_f = 0;
  of_nat = λ n. n * 1_000_000;
  to_nat = λ x. x / 1_000_000;
  add_f = λ x y. x + y;
  sub_f = λ x y. x - y;
  mul_f = λ x y. x * y / 1_000_000;
  div_f = λ x y. x * 1_000_000 / y;
  floor_f = λ x. x / 1_000_000 * 1_000_000;
  ceil_f = λ x. (x + 999_999) / 1_000_000 * 1_000_000;
  min_f = min;
  as_secs_f64 = λ n. n / 1_000;
  lt_f = ltb;
  le_f = leb;
  eq_f = λ x y. x == y;
  is_finite = λ x. true;
  to_nat-le = truncation-le;
}
