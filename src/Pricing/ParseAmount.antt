-- ===== src/Pricing/ParseAmount.antt =====
-- internal/usage/pricing/amount.go, `ParseAmount`. Its errors are told apart by their messages only.
pub mod Digits
pub mod Texts
pub mod RoundTrip
use copilotd.Prelude.{
  ℕ, ◌+◌, ◌-◌, ◌*◌, Bool, true, false, not, ◌||◌, ◌&&◌, Option, none, some, [], ◌∷◌, ◌++◌, Bytes,
  codes, ltb, leb, ◌==◌, equal, if◌then◌else◌, length, Result, ok, err,
}
use copilotd.Pricing.Amount.{Amount}

pub data ParseError : Type 0 where
  invalid_length invalid_integer not_decimal invalid_fraction not_canonical : ParseError

unfoldable pub is_digit : ℕ → Bool
is_digit c = leb b'0' c && leb c b'9'

unfoldable pub are_digits : Bytes → Bool
unfolding is_digit
are_digits [] = true
are_digits (c ∷ rest) = is_digit c && are_digits rest

-- `big.Int.SetString` on decimal digits, behind those read before.
unfoldable pub read : ℕ → Bytes → ℕ
read value [] = value
read value (c ∷ rest) = read (value * 10 + (c - b'0')) rest

-- `strings.Cut(raw, ".")`; `none` is a raw text without a dot.
unfoldable pub cut : Bytes → Bytes × Option Bytes
cut [] = ([], none)
cut (c ∷ rest) =
    let later = cut rest in if c == b'.' then ([], some rest) else (c ∷ later.0, later.1)

-- The integer part begins with a digit, and with a zero only alone.
unfoldable pub is_integer : Bytes → Bool
unfolding is_digit
is_integer [] = false
is_integer (c ∷ []) = is_digit c
is_integer (c ∷ d ∷ rest) = is_digit c && not (c == b'0')

unfoldable pub last_is_zero : Bytes → Bool
last_is_zero [] = false
last_is_zero (c ∷ []) = c == b'0'
last_is_zero (c ∷ d ∷ rest) = last_is_zero (d ∷ rest)

abbrev is_empty : Bytes → Bool
is_empty [] = true
is_empty (c ∷ rest) = false

unfoldable pub is_fraction : Bytes → Bool
unfolding last_is_zero
is_fraction fraction = not (is_empty fraction || ltb 24 (length fraction) || last_is_zero fraction)

unfoldable pub canonical : Bytes → Bytes → Bytes → Result ParseError Amount
unfolding read equal
canonical raw integer fraction =
    if read 0 (integer ++ fraction) == 0 && not (equal raw (codes "0"))
    then err not_canonical
    else ok (record { coefficient = read 0 (integer ++ fraction); scale = length fraction })

unfoldable pub parse_parts : Bytes → Bytes → Option Bytes → Result ParseError Amount
unfolding is_integer are_digits is_fraction canonical
parse_parts raw integer none =
    if not (is_integer integer)
    then err invalid_integer
    else if not (are_digits integer)
    then err not_decimal
    else canonical raw integer []
parse_parts raw integer (some fraction) =
    if not (is_integer integer)
    then err invalid_integer
    else if not (are_digits integer)
    then err not_decimal
    else if not (is_fraction fraction)
    then err invalid_fraction
    else if not (are_digits fraction)
    then err not_decimal
    else canonical raw integer fraction

-- `ParseAmount`.
unfoldable pub parse_amount : Bytes → Result ParseError Amount
unfolding cut parse_parts
parse_amount raw =
    if is_empty raw || ltb 128 (length raw)
    then err invalid_length
    else (let parts = cut raw in parse_parts raw parts.0 parts.1)
