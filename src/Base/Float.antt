-- ===== src/Base/Float.antt =====
-- What the source uses of `f64`: a type with its operations, and of IEEE 754 the one fact about
-- rounding that the money path leans on. Nothing else is assumed of floats: every operation may
-- round as it likes.
use katpool.Base.{ℕ, ◌≤◌, ◌≡◌, Bool, false}

pub record Float : Type 1 where
  pub F : Type 0
  pub zero_f : F
  -- a `u64` or a non-negative `i64`, `as f64`
  pub of_nat : ℕ → F
  -- `as u64` or `as i64` of a value that is not negative: truncation, which saturates; NaN gives 0
  pub to_nat : F → ℕ
  pub add_f : F → F → F
  pub sub_f : F → F → F
  pub mul_f : F → F → F
  pub div_f : F → F → F
  pub floor_f : F → F
  pub ceil_f : F → F
  pub min_f : F → F → F
  -- `Duration::as_secs_f64` of a number of nanoseconds
  pub as_secs_f64 : ℕ → F
  pub lt_f : F → F → Bool
  pub le_f : F → F → Bool
  pub eq_f : F → F → Bool
  pub is_finite : F → Bool
  -- A float that is not at least the float nearest to n, and not negative, truncates to at most n:
  -- there is no float between n and the float nearest to it.
  pub to_nat-le : (x : F) (n : ℕ) → le_f x zero_f ≡ false → le_f (of_nat n) x ≡ false → to_nat x ≤ n
