-- ===== src/Tests/Rebates.antt =====
-- The price 0.000365 and the conversion of one KAS at it.
use katpool.Base.{ℕ, ◌*◌, ◌^◌, ◌≤◌, ◌<◌, ◌≡◌, refl, suc, false, List, [], ◌∷◌, inr, ok, arith}
use katpool.Base.Int.{pos}
use katpool.Krc20Payout.Rebate.{
  FloorPrice, from_decimal_str, split_points, parse_u128, nacho_base_units, is_payable,
  default_min_nacho_base_units,
}
use katpool.Krc20Payout.Rebate.Floor.{nacho_base_units-exact}
use katpool.Krc20Payout.Rebate.Decimal.{place_value, from_decimal_str-reads}

abbrev zero_digit : List ℕ
zero_digit = b'0' ∷ []

abbrev fraction : List ℕ
fraction = b'0' ∷ b'0' ∷ b'0' ∷ b'3' ∷ b'6' ∷ b'5' ∷ []

abbrev nacho_price : FloorPrice
nacho_price = record { mantissa = 365; scale = 6 }

from_decimal_str-reads_example : from_decimal_str (b'0' ∷ b'.' ∷ fraction) ≡ ok nacho_price
unfolding place_value
from_decimal_str-reads_example =
    from_decimal_str-reads zero_digit fraction refl (omega arith) (omega arith) (omega arith)

price_read : from_decimal_str (b'0' ∷ b'.' ∷ fraction) ≡ ok nacho_price
unfolding from_decimal_str split_points parse_u128
price_read = refl

nacho_base_units-exact_example :
    (units : ℕ) × (nacho_base_units (pos 100_000_000) nacho_price ≡ ok units)
    × (units * 365 ≤ 100_000_000 * 10 ^ 6)
    × (100_000_000 * 10 ^ 6 < suc units * 365)
nacho_base_units-exact_example =
    nacho_base_units-exact 365 6 (b'0' ∷ b'.' ∷ fraction) nacho_price 100_000_000 (inr price_read)
      (omega arith)

one_kas : nacho_base_units (pos 100_000_000) nacho_price ≡ ok 273_972_602_739
unfolding nacho_base_units
one_kas = refl

dust : is_payable 99_999_999 default_min_nacho_base_units ≡ false
unfolding is_payable
dust = refl
