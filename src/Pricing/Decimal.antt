-- ===== src/Pricing/Decimal.antt =====
-- internal/usage/pricing/decimal.go, and `big.Int.String` and `Exp(10, n)` as it uses them.
use copilotd.Prelude.{
  ℕ, zero, suc, ◌+◌, ◌-◌, ◌/◌, ◌%◌, true, false, [], ◌∷◌, ◌++◌, Bytes, codes, ltb, leb, ◌==◌,
  if◌then◌else◌, length, take, drop, replicate,
}

-- The decimal digits of a number, the most significant first. Each round divides by ten, so a fuel
-- above the number is enough.
unfoldable pub print : ℕ → ℕ → Bytes
print zero n = []
print (suc fuel) n = elim (ltb n 10) [
  | true ↦ (b'0' + n) ∷ []
  | false ↦ print fuel (n / 10) ++ (b'0' + n % 10) ∷ []
]

unfoldable pub digits : ℕ → Bytes
unfolding print
digits n = print (suc n) n

-- `formatNonnegativeScaledDecimal`; a nil coefficient is 0 here.
unfoldable pub format : ℕ → ℕ → Bytes
unfolding digits
format coefficient scale =
    if coefficient == 0
    then codes "0"
    else if scale == 0
    then digits coefficient
    else if leb (length (digits coefficient)) scale
    then codes "0." ++ (replicate (scale - length (digits coefficient)) b'0' ++ digits coefficient)
    else (let cut = length (digits coefficient) - scale in
        take cut (digits coefficient) ++ (b'.' ∷ drop cut (digits coefficient)))
