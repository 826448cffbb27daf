-- ===== src/Krc20Payout/Rebate/Decimal.antt =====
-- Reading a plain decimal, `FloorPrice::from_decimal_str` of payout-krc20/src/rebate.rs.
use katpool.Base.{
  ℕ, suc, ◌+◌, ◌-◌, ◌*◌, ◌^◌, ◌≤◌, ◌<◌, ◌≡◌, refl, sym, ◌∙◌, ap, subst, true, false, ◌&&◌, List, [],
  ◌∷◌, ◌++◌, length, is_empty, le→leb, some, ok, arith, zero,
}
use katpool.Base.Word.{u128_max}
use katpool.Krc20Payout.Rebate.{
  PriceInput, decimal, from_decimal_str, price_of_parts, price_of_digits, split_points, u128_digits,
  parse_u128, all_digits, max_floor_price_scale,
}
use native.Mathlib.Nat.{mul-le-mul_left, pow-suc}

-- The number that a list of digits writes, by the place of each.
unfoldable pub place_value : List ℕ → ℕ
place_value [] = 0
place_value (c ∷ cs) = (c - b'0') * 10 ^ length cs + place_value cs

pow_pos : (n : ℕ) → 0 < 10 ^ n
pow_pos zero = omega arith
pow_pos (suc n) = omega (arith, pow_pos n)

shift_digit : (acc d n v : ℕ) → acc * 10 ^ suc n + (d * 10 ^ n + v) ≡ (acc * 10 + d) * 10 ^ n + v
shift_digit acc d n v = rw (pow-suc 10 n) (grind arith)

digit_room :
    (acc d n v : ℕ) → acc * 10 ^ suc n + (d * 10 ^ n + v) ≤ u128_max → acc * 10 + d ≤ u128_max
digit_room acc d n v h =
    omega (arith, shift_digit acc d n v, mul-le-mul_left (acc * 10 + d) (pow_pos n))

u128_digits-place_value :
    (acc : ℕ) (cs : List ℕ)
    → acc * 10 ^ length cs + place_value cs ≤ u128_max
    → u128_digits acc cs ≡ some (acc * 10 ^ length cs + place_value cs)
unfolding u128_digits place_value
u128_digits-place_value acc [] h = ground arith
u128_digits-place_value acc (c ∷ cs) h =
    let room = digit_room acc (c - b'0') (length cs) (place_value cs) h in
    let same = shift_digit acc (c - b'0') (length cs) (place_value cs) in
    let tail =
      u128_digits-place_value (acc * 10 + (c - b'0')) cs (subst (λ v. v ≤ u128_max) same h) in
    rw (le→leb (acc * 10 + (c - b'0')) u128_max room) (tail ∙ ap some (sym same))

split_points-digits : (cs : List ℕ) → all_digits cs ≡ true → split_points cs ≡ cs ∷ []
unfolding split_points
split_points-digits [] h = refl
split_points-digits (c ∷ cs) h = ground (arith, split_points-digits cs)

split_points-point :
    (int_part frac_part : List ℕ)
    → all_digits (int_part ++ frac_part) ≡ true
    → split_points (int_part ++ (b'.' ∷ frac_part)) ≡ int_part ∷ frac_part ∷ []
unfolding split_points
split_points-point [] frac_part h = ground (arith, split_points-digits frac_part h)
split_points-point (c ∷ cs) frac_part h = ground (arith, split_points-point cs frac_part)

place_value-pos : (cs : List ℕ) → 0 < place_value cs → is_empty cs ≡ false
unfolding place_value
place_value-pos [] h = absurd (omega (arith, h))
place_value-pos (c ∷ cs) h = refl

parse_u128-place_value :
    (cs : List ℕ)
    → 0 < place_value cs
    → place_value cs ≤ u128_max
    → parse_u128 cs ≡ some (place_value cs)
unfolding parse_u128
parse_u128-place_value [] h k = absurd (ground (arith, place_value-pos [] h))
parse_u128-place_value (c ∷ cs) h k =
    let from_zero : 0 * 10 ^ length (c ∷ cs) + place_value (c ∷ cs) ≡ place_value (c ∷ cs) =
      omega arith in
    u128_digits-place_value 0 (c ∷ cs) (subst (λ v. v ≤ u128_max) (sym from_zero) k)
    ∙ ap some from_zero

is_empty-append : (xs ys : List ℕ) → is_empty (xs ++ ys) ≡ (is_empty xs && is_empty ys)
is_empty-append [] ys = refl
is_empty-append (x ∷ xs) ys = refl

is_empty-point : (xs ys : List ℕ) → is_empty (xs ++ (b'.' ∷ ys)) ≡ false
is_empty-point [] ys = refl
is_empty-point (x ∷ xs) ys = refl

price_of_digits-reads :
    (input : PriceInput) (digits : List ℕ) (scale : ℕ)
    → 0 < place_value digits
    → place_value digits ≤ u128_max
    → price_of_digits input digits scale
      ≡ ok (record { mantissa = place_value digits; scale = scale })
unfolding price_of_digits
price_of_digits-reads input digits scale positive fits =
    rw (parse_u128-place_value digits positive fits) (ground arith)

price_of_parts-reads :
    (input : PriceInput) (int_part frac_part : List ℕ)
    → all_digits (int_part ++ frac_part) ≡ true
    → length frac_part ≤ max_floor_price_scale
    → 0 < place_value (int_part ++ frac_part)
    → place_value (int_part ++ frac_part) ≤ u128_max
    → price_of_parts input (int_part, frac_part, false)
      ≡ ok (record { mantissa = place_value (int_part ++ frac_part); scale = length frac_part })
unfolding price_of_parts
price_of_parts-reads input int_part frac_part digits short positive fits =
    let some_digit = place_value-pos (int_part ++ frac_part) positive in
    rw (sym (is_empty-append int_part frac_part), some_digit, digits)
      (ground (
        arith,
        price_of_digits-reads input (int_part ++ frac_part) (length frac_part) positive fits,
      ))

-- Digits, a point and at most 18 further digits, of a value that is positive and in the range of a
-- u128 without the point, are read as that value with the number of digits after the point as scale.
pub from_decimal_str-reads :
    (int_part frac_part : List ℕ)
    → all_digits (int_part ++ frac_part) ≡ true
    → length frac_part ≤ max_floor_price_scale
    → 0 < place_value (int_part ++ frac_part)
    → place_value (int_part ++ frac_part) ≤ u128_max
    → from_decimal_str (int_part ++ (b'.' ∷ frac_part))
      ≡ ok (record { mantissa = place_value (int_part ++ frac_part); scale = length frac_part })
unfolding from_decimal_str
from_decimal_str-reads int_part frac_part digits short positive fits =
    rw (is_empty-point int_part frac_part, split_points-point int_part frac_part digits)
      (price_of_parts-reads (decimal (int_part ++ (b'.' ∷ frac_part))) int_part frac_part digits
        short positive fits)
