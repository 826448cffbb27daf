-- ===== src/Bridge/Nonce.antt =====
-- The nonce of a submission (`handle_submit` of bridge/src/share_handler.rs). A text is the list of its
-- bytes; `u64::from_str_radix` is Rust's. An extranonce has at most 16 digits.
use katpool.Base.{
  ℕ, zero, suc, ◌+◌, ◌-◌, ◌*◌, true, false, ◌&&◌, ◌==◌, if◌then◌else◌, leb, Option, none, some,
  List, [], ◌∷◌, ◌++◌, length, is_empty,
}
use katpool.Base.Word.{u64_max}

-- `replace("0x", "")`
unfoldable pub strip_0x : List ℕ → List ℕ
strip_0x [] = []
strip_0x (c ∷ []) = c ∷ []
strip_0x (c ∷ d ∷ cs) =
    let dropped = strip_0x cs in
    let kept = c ∷ strip_0x (d ∷ cs) in if c == b'0' && d == b'x' then dropped else kept

abbrev pub zeros : ℕ → List ℕ
zeros zero = []
zeros (suc n) = b'0' ∷ zeros n

-- `{:0>width$}`
abbrev pub pad_zeros : ℕ → List ℕ → List ℕ
pad_zeros width text = zeros (width - length text) ++ text

unfoldable pub final_nonce : List ℕ → List ℕ → List ℕ
final_nonce extranonce nonce =
    if is_empty extranonce
    then nonce
    else if leb (length nonce) (16 - length extranonce)
    then extranonce ++ pad_zeros (16 - length extranonce) nonce
    else nonce

-- a digit in base 16, of either case
unfoldable pub hex_digit : ℕ → Option ℕ
hex_digit c =
    if leb b'0' c && leb c b'9'
    then some (c - b'0')
    else if leb b'a' c && leb c b'f'
    then some (c - b'a' + 10)
    else if leb b'A' c && leb c b'F'
    then some (c - b'A' + 10)
    else none

-- the digits after a value of `acc`; `none` is a parse error
unfoldable pub hex_digits : ℕ → List ℕ → Option ℕ
unfolding hex_digit
hex_digits acc [] = some acc
hex_digits acc (c ∷ cs) = elim (hex_digit c) [
  | none ↦ none
  | some d ↦ elim (leb (acc * 16 + d) u64_max) [
    | false ↦ none
    | true ↦ hex_digits (acc * 16 + d) cs
  ]
]

unfoldable pub some_digits : List ℕ → Option ℕ
unfolding hex_digits
some_digits [] = none
some_digits (c ∷ cs) = hex_digits 0 (c ∷ cs)

unfoldable pub from_str_radix_16 : List ℕ → Option ℕ
unfolding some_digits
from_str_radix_16 [] = none
from_str_radix_16 (c ∷ cs) = if c == b'+' then some_digits cs else some_digits (c ∷ cs)
