-- ===== src/Krc20Payout/Rebate.antt =====
-- The floor price and the conversion of a pending rebate from sompi to NACHO base units
-- (payout-krc20/src/rebate.rs). A text is the list of its bytes; `u128::from_str` is Rust's, on a
-- text of digits. An error keeps its input, and its reason as a constructor.
pub mod Floor
pub mod Decimal
use katpool.Base.{
  ℕ, ◌+◌, ◌-◌, ◌*◌, ◌/◌, ◌^◌, Bool, true, false, not, ◌&&◌, if◌then◌else◌, ltb, leb, ◌==◌, List, [],
  ◌∷◌, ◌++◌, length, is_empty, Option, none, some, Result, ok, err, ◌>>=◌, ok_or,
}
use katpool.Base.Int.{ℤ, pos, negsuc}
use katpool.Base.Word.{u128_max}

abbrev pub max_floor_price_scale : ℕ
max_floor_price_scale = 18

abbrev pub default_min_nacho_base_units : ℕ
default_min_nacho_base_units = 100_000_000

pub data PriceReason : Type 0 where
  empty_input multiple_points no_digits non_digit scale_exceeds out_of_range price_is_zero :
      PriceReason

-- what the error shows: the text that was read, or a mantissa and a scale
pub data PriceInput : Type 0 where
  decimal : List ℕ → PriceInput
  scientific : ℕ → ℕ → PriceInput

pub data RebateError : Type 0 where
  price_parse : PriceInput → PriceReason → RebateError
  negative_pending : ℤ → RebateError
  overflow : RebateError

-- mantissa / 10 ^ scale, in KAS for one NACHO
pub record FloorPrice : Type 0 where
  pub mantissa : ℕ
  pub scale : ℕ

unfoldable pub from_mantissa_scale : ℕ → ℕ → Result RebateError FloorPrice
from_mantissa_scale mantissa scale =
    if mantissa == 0
    then err (price_parse (scientific mantissa scale) price_is_zero)
    else if ltb max_floor_price_scale scale
    then err (price_parse (scientific mantissa scale) scale_exceeds)
    else ok (record { mantissa = mantissa; scale = scale })

abbrev pub is_ascii_digit : ℕ → Bool
is_ascii_digit c = leb b'0' c && leb c b'9'

abbrev pub all_digits : List ℕ → Bool
all_digits [] = true
all_digits (c ∷ cs) = is_ascii_digit c && all_digits cs

-- the digits after a value of `acc`; `none` is an overflow
unfoldable pub u128_digits : ℕ → List ℕ → Option ℕ
u128_digits acc [] = some acc
u128_digits acc (c ∷ cs) =
    let rest = u128_digits (acc * 10 + (c - b'0')) cs in
    if leb (acc * 10 + (c - b'0')) u128_max then rest else none

unfoldable pub parse_u128 : List ℕ → Option ℕ
unfolding u128_digits
parse_u128 [] = none
parse_u128 (c ∷ cs) = u128_digits 0 (c ∷ cs)

abbrev pub extend_first : ℕ → List (List ℕ) → List (List ℕ)
extend_first c [] = (c ∷ []) ∷ []
extend_first c (part ∷ parts) = (c ∷ part) ∷ parts

-- `split('.')`: never without a part
unfoldable pub split_points : List ℕ → List (List ℕ)
split_points [] = [] ∷ []
split_points (c ∷ cs) =
    let rest = split_points cs in if c == b'.' then [] ∷ rest else extend_first c rest

-- the integer and the fraction part, and whether a third follows
abbrev pub two_parts : List (List ℕ) → List ℕ × List ℕ × Bool
two_parts [] = ([], [], false)
two_parts (int_part ∷ []) = (int_part, [], false)
two_parts (int_part ∷ frac_part ∷ []) = (int_part, frac_part, false)
two_parts (int_part ∷ frac_part ∷ _ ∷ _) = (int_part, frac_part, true)

unfoldable pub price_of_digits : PriceInput → List ℕ → ℕ → Result RebateError FloorPrice
price_of_digits input digits scale =
    ok_or (parse_u128 digits) (price_parse input out_of_range) >>= λ mantissa.
    if mantissa == 0
    then err (price_parse input price_is_zero)
    else ok (record { mantissa = mantissa; scale = scale })

-- a length that is no `u32` is refused with the reason that a scale above the maximum is
unfoldable pub price_of_parts : PriceInput → List ℕ × List ℕ × Bool → Result RebateError FloorPrice
unfolding price_of_digits
price_of_parts input (int_part, frac_part, third) =
    if third
    then err (price_parse input multiple_points)
    else if is_empty int_part && is_empty frac_part
    then err (price_parse input no_digits)
    else if not (all_digits (int_part ++ frac_part))
    then err (price_parse input non_digit)
    else if ltb max_floor_price_scale (length frac_part)
    then err (price_parse input scale_exceeds)
    else price_of_digits input (int_part ++ frac_part) (length frac_part)

unfoldable pub from_decimal_str : List ℕ → Result RebateError FloorPrice
unfolding price_of_parts
from_decimal_str input =
    if is_empty input
    then err (price_parse (decimal input) empty_input)
    else price_of_parts (decimal input) (two_parts (split_points input))

-- `u128::checked_pow` of 10, and `checked_mul`: `none` above the limit
abbrev pub checked_u128 : ℕ → Option ℕ
checked_u128 n = if leb n u128_max then some n else none

unfoldable pub nacho_base_units : ℤ → FloorPrice → Result RebateError ℕ
nacho_base_units (negsuc n) price = err (negative_pending (negsuc n))
nacho_base_units (pos pending) price =
    ok_or (checked_u128 (10 ^ price.scale)) overflow >>= λ factor.
    ok_or (checked_u128 (pending * factor)) overflow >>= λ scaled. ok (scaled / price.mantissa)

unfoldable pub is_payable : ℕ → ℕ → Bool
is_payable base_units min_base_units = leb min_base_units base_units
