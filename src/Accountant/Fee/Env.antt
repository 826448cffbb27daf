-- ===== src/Accountant/Fee/Env.antt =====
-- Reading the topline fee from the environment (accountant/src/config.rs). A text is the list of
-- its bytes; `u16::from_str` is Rust's: an optional `+`, then at least one digit, in range.
use katpool.Base.{
  ℕ, ◌+◌, ◌-◌, ◌*◌, ◌≤◌, ◌≡◌, Bool, ◌&&◌, if◌then◌else◌, leb, ◌==◌, List, [], ◌∷◌, Option, none,
  some, arith, Result, ok, err, ◌>>=◌, ok_or, >>=-eq-ok,
}
use katpool.Accountant.Fee.{
  FeeConfig, ConfigError, not_unicode, not_u16, new, max_topline_bps, default_topline_bps,
}

-- What `std::env::var` returns.
pub data Lookup : Type 0 where
  value : List ℕ → Lookup
  not_present not_valid_unicode : Lookup

is_digit : ℕ → Bool
is_digit c = leb b'0' c && leb c b'9'

-- the digits so far, in range; `none` is a parse error
u16_digits : ℕ → List ℕ → Option ℕ
unfolding is_digit
u16_digits acc [] = some acc
u16_digits acc (c ∷ cs) =
    let rest = u16_digits (acc * 10 + (c - b'0')) cs in
    if is_digit c && leb (acc * 10 + (c - b'0')) 65_535 then rest else none

u16_of_digits : List ℕ → Option ℕ
u16_of_digits [] = none
u16_of_digits (c ∷ cs) = u16_digits 0 (c ∷ cs)

unfoldable u16_from_str : List ℕ → Option ℕ
unfolding u16_of_digits u16_digits
u16_from_str [] = none
u16_from_str (c ∷ cs) = if c == b'+' then u16_of_digits cs else u16_of_digits (c ∷ cs)

unfoldable pub parse_bps : List ℕ → Result ConfigError ℕ
unfolding u16_from_str
parse_bps raw = ok_or (u16_from_str raw) not_u16

unfoldable looked_up_bps : Lookup → Result ConfigError ℕ
looked_up_bps (value raw) = parse_bps raw
looked_up_bps not_present = ok default_topline_bps
looked_up_bps not_valid_unicode = err not_unicode

-- `FeeConfig::from_lookup`, given what the lookup returned
unfoldable pub from_lookup : Lookup → Result ConfigError FeeConfig
unfolding looked_up_bps
from_lookup found = looked_up_bps found >>= new

-- A configuration that loads was accepted by `new` at some value, and so has a topline fee of at
-- most ten percent, whatever the environment held.
pub from_lookup-bounded :
    (found : Lookup) (cfg : FeeConfig)
    → from_lookup found ≡ ok cfg
    → (new cfg.topline_bps ≡ ok cfg) × (cfg.topline_bps ≤ max_topline_bps)
unfolding from_lookup new
from_lookup-bounded found cfg h =
    let (bps, _, e) = >>=-eq-ok (looked_up_bps found) new h in ground arith
