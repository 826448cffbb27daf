-- ===== src/Krc20Payout/Rebate/Floor.antt =====
-- The conversion of payout-krc20/src/rebate.rs on a price that either constructor has built.
use katpool.Base.{
  ℕ, suc, ◌*◌, ◌/◌, ◌^◌, ◌≤◌, ◌<◌, ◌≡◌, refl, ◌⊎◌, inl, inr, Bool, le→leb, List, length, ◌++◌, ok,
  ok_or, >>=-eq-ok, arith,
}
use katpool.Base.Int.{pos}
use katpool.Base.Word.{i64_max, u128_max}
use katpool.Krc20Payout.Rebate.{
  FloorPrice, PriceInput, from_mantissa_scale, from_decimal_str, price_of_parts, price_of_digits,
  two_parts, split_points, nacho_base_units, max_floor_price_scale, parse_u128, price_parse,
  decimal, out_of_range,
}
use native.Mathlib.Nat.{pow-le-pow_right, div-mul-le_self, lt-div-mul-add, mul-le-mul}

abbrev IsPrice : FloorPrice → Type 0
IsPrice price = (0 < price.mantissa) × (price.scale ≤ max_floor_price_scale)

from_mantissa_scale-IsPrice :
    (mantissa scale : ℕ) (price : FloorPrice)
    → from_mantissa_scale mantissa scale ≡ ok price
    → IsPrice price
unfolding from_mantissa_scale
from_mantissa_scale-IsPrice mantissa scale price h = ground arith

price_of_digits-IsPrice :
    (input : PriceInput) (digits : List ℕ) (scale : ℕ) (price : FloorPrice)
    → scale ≤ max_floor_price_scale
    → price_of_digits input digits scale ≡ ok price
    → IsPrice price
unfolding price_of_digits
price_of_digits-IsPrice input digits scale price le h =
    let (mantissa, _, e) =
      >>=-eq-ok (ok_or (parse_u128 digits) (price_parse input out_of_range)) _ h in
    ground (arith, e)

price_of_parts-IsPrice :
    (input : PriceInput) (parts : List ℕ × List ℕ × Bool) (price : FloorPrice)
    → price_of_parts input parts ≡ ok price
    → IsPrice price
unfolding price_of_parts
price_of_parts-IsPrice input (int_part, frac_part, third) price h =
    ground
      (arith, h, price_of_digits-IsPrice input (int_part ++ frac_part) (length frac_part) price)

from_decimal_str-IsPrice :
    (input : List ℕ) (price : FloorPrice) → from_decimal_str input ≡ ok price → IsPrice price
unfolding from_decimal_str
from_decimal_str-IsPrice input price h =
    price_of_parts-IsPrice (decimal input) (two_parts (split_points input)) price
      (ground (arith, h))

built-IsPrice :
    (mantissa scale : ℕ) (input : List ℕ) (price : FloorPrice)
    → (from_mantissa_scale mantissa scale ≡ ok price) ⊎ (from_decimal_str input ≡ ok price)
    → IsPrice price
built-IsPrice mantissa scale input price (inl h) =
    from_mantissa_scale-IsPrice mantissa scale price h
built-IsPrice mantissa scale input price (inr h) = from_decimal_str-IsPrice input price h

factor_le : (scale : ℕ) → scale ≤ max_floor_price_scale → 10 ^ scale ≤ 1_000_000_000_000_000_000
factor_le scale le = pow-le-pow_right {n = 10} (omega arith) {i = scale} {j = 18} le

division_bounds : (n m : ℕ) → 0 < m → (n / m * m ≤ n) × (n < suc (n / m) * m)
division_bounds n m h = (div-mul-le_self n m, omega (arith, lt-div-mul-add {a = n} h))

product_le : (a b : ℕ) → a ≤ i64_max → b ≤ 1_000_000_000_000_000_000 → a * b ≤ u128_max
product_le a b h k = omega (arith, mul-le-mul h k)

nacho_base_units_eq :
    (price : FloorPrice) (pending : ℕ)
    → 10 ^ price.scale ≤ 1_000_000_000_000_000_000
    → pending ≤ i64_max
    → nacho_base_units (pos pending) price ≡ ok (pending * 10 ^ price.scale / price.mantissa)
unfolding nacho_base_units
nacho_base_units_eq price pending small le =
    rw
      (
        le→leb (10 ^ price.scale) u128_max (omega arith),
        le→leb (pending * 10 ^ price.scale) u128_max (product_le pending _ le small),
      )
      refl

-- A price that either constructor returned converts every balance from 0 to the largest i64, without
-- an overflow, to the exact floor of the balance times 10^scale over the mantissa.
pub nacho_base_units-exact :
    (mantissa scale : ℕ) (input : List ℕ) (price : FloorPrice) (pending : ℕ)
    → (from_mantissa_scale mantissa scale ≡ ok price) ⊎ (from_decimal_str input ≡ ok price)
    → pending ≤ i64_max
    → (units : ℕ) × (nacho_base_units (pos pending) price ≡ ok units)
      × (units * price.mantissa ≤ pending * 10 ^ price.scale)
      × (pending * 10 ^ price.scale < suc units * price.mantissa)
nacho_base_units-exact mantissa scale input price pending built le =
    let (positive, small) = built-IsPrice mantissa scale input price built in
    let (below, above) = division_bounds (pending * 10 ^ price.scale) price.mantissa positive in
    (
      pending * 10 ^ price.scale / price.mantissa,
      nacho_base_units_eq price pending (factor_le price.scale small) le,
      below,
      above,
    )
