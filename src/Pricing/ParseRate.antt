-- ===== src/Pricing/ParseRate.antt =====
-- internal/usage/pricing/rate.go: `ParseRate`, which walks over the bytes of a JSON number, and
-- `Rate.String`. Its errors are told apart by their messages only.
pub mod Bounded
use copilotd.Prelude.{
  ℕ, ◌+◌, ◌-◌, ◌*◌, ◌^◌, Bool, true, false, not, ◌||◌, ◌&&◌, [], ◌∷◌, ◌++◌, Bytes, ltb, ◌==◌,
  if◌then◌else◌, length, Result, ok, err, ◌>>=◌,
}
use copilotd.Pricing.Decimal.{digits, format}
use copilotd.Pricing.Amount.{Amount, Rate, trim}
use copilotd.Pricing.ParseAmount.{is_digit, read}

pub data RateError : Type 0 where
  invalid_length negative_rate leading_zero no_integer empty_fraction excessive_exponent : RateError
  invalid_exponent not_a_number exceeds_bounds : RateError

-- The digits in front, and the rest.
unfoldable pub span_digits : Bytes → Bytes × Bytes
unfolding is_digit
span_digits [] = ([], [])
span_digits (c ∷ rest) =
    let later = span_digits rest in if is_digit c then (c ∷ later.0, later.1) else ([], c ∷ rest)

abbrev starts_with_digit : Bytes → Bool
unfolding is_digit
starts_with_digit [] = false
starts_with_digit (c ∷ rest) = is_digit c

-- The integer part, and what follows it.
unfoldable pub integer_part : Bytes → Result RateError (Bytes × Bytes)
unfolding span_digits starts_with_digit
integer_part [] = err no_integer
integer_part (c ∷ rest) =
    if c == b'0'
    then (if starts_with_digit rest then err leading_zero else ok (c ∷ [], rest))
    else if is_digit c
    then ok (span_digits (c ∷ rest))
    else err no_integer

abbrev nonempty_fraction : Bytes × Bytes → Result RateError (Bytes × Bytes)
nonempty_fraction ([], rest) = err empty_fraction
nonempty_fraction (c ∷ fraction, rest) = ok (c ∷ fraction, rest)

unfoldable pub fraction_part : Bytes → Result RateError (Bytes × Bytes)
unfolding span_digits
fraction_part [] = ok ([], [])
fraction_part (c ∷ rest) =
    if c == b'.' then nonempty_fraction (span_digits rest) else ok ([], c ∷ rest)

-- An exponent's absolute value, and whether it is negative.
pub record Exponent : Type 0 where
  pub negative : Bool
  pub size : ℕ

abbrev no_exponent : Exponent
no_exponent = record { negative = false; size = 0 }

unfoldable pub exponent_digits : Bool → Bytes → Result RateError (Exponent × Bytes)
unfolding span_digits read
exponent_digits negative text =
    let found = span_digits text in
    if ltb 2 (length found.0)
    then err excessive_exponent
    else if length found.0 == 0 || ltb 36 (read 0 found.0)
    then err invalid_exponent
    else ok (record { negative = negative; size = read 0 found.0 }, found.1)

unfoldable pub signed_exponent : Bytes → Result RateError (Exponent × Bytes)
unfolding exponent_digits
signed_exponent [] = exponent_digits false []
signed_exponent (c ∷ rest) =
    if c == b'-'
    then exponent_digits true rest
    else if c == b'+'
    then exponent_digits false rest
    else exponent_digits false (c ∷ rest)

unfoldable pub exponent_part : Bytes → Result RateError (Exponent × Bytes)
unfolding signed_exponent
exponent_part [] = ok (no_exponent, [])
exponent_part (c ∷ rest) =
    if c == b'e' || c == b'E' then signed_exponent rest else ok (no_exponent, c ∷ rest)

-- The coefficient and the scale, the latter raised to 0.
unfoldable pub shifted : ℕ → ℕ → Exponent → Amount
shifted coefficient scale e =
    if e.negative
    then record { coefficient = coefficient; scale = scale + e.size }
    else if ltb scale e.size
    then record { coefficient = coefficient * 10 ^ (e.size - scale); scale = 0 }
    else record { coefficient = coefficient; scale = scale - e.size }

-- The loop over trailing zeros of the fraction, which is that of `newAmount`.
unfoldable pub normalized : Amount → Amount
unfolding trim
normalized a =
    if a.coefficient == 0 then record { coefficient = 0; scale = 0 } else trim a.coefficient a.scale

unfoldable pub within_bounds : Amount → Result RateError Rate
unfolding digits
within_bounds a =
    if ltb 18 (length (digits a.coefficient) - a.scale) || ltb 18 a.scale
    then err exceeds_bounds
    else ok (record { coefficient = a.coefficient; scale = a.scale })

abbrev pub finished : Bytes → Bytes → Exponent × Bytes → Result RateError Rate
finished integer fraction (e, []) =
    within_bounds (normalized (shifted (read 0 (integer ++ fraction)) (length fraction) e))
finished integer fraction (e, c ∷ rest) = err not_a_number

unfoldable pub parse_number : Bytes → Result RateError Rate
unfolding integer_part fraction_part exponent_part read shifted normalized within_bounds
parse_number raw = do
  integer ← integer_part raw
  fraction ← fraction_part integer.1
  exponent ← exponent_part fraction.1
  finished integer.0 fraction.0 exponent

abbrev pub is_signed : Bytes → Bool
is_signed [] = false
is_signed (c ∷ rest) = c == b'-' || c == b'+'

-- `ParseRate`.
unfoldable pub parse_rate : Bytes → Result RateError Rate
unfolding parse_number
parse_rate raw =
    if length raw == 0 || ltb 128 (length raw)
    then err invalid_length
    else if is_signed raw
    then err negative_rate
    else parse_number raw

-- `Rate.String`.
unfoldable pub rate_text : Rate → Bytes
unfolding format
rate_text r = format r.coefficient r.scale
