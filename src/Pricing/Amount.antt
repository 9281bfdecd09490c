-- ===== src/Pricing/Amount.antt =====
-- internal/usage/pricing/amount.go: `Amount`, `newAmount`, `Add`, and `Rate.ForTokens`.
pub mod Exact
pub mod Bounds
use copilotd.Prelude.{
  ℕ, zero, suc, ◌+◌, ◌-◌, ◌*◌, ◌/◌, ◌%◌, ◌^◌, ◌≤◌, ◌<◌, max, ◌≡◌, refl, arith, Bool, true, false,
  ◌||◌, Bytes, ltb, ◌==◌, if◌then◌else◌, length, Result, ok, err, ℤ, pos, negsuc,
}
use copilotd.Pricing.Decimal.{format}

-- `coefficient / 10 ^ scale`. A nil coefficient reads as 0 everywhere, so it is 0 here.
pub record Amount : Type 0 where
  pub coefficient : ℕ
  pub scale : ℕ

pub record Rate : Type 0 where
  pub coefficient : ℕ
  pub scale : ℕ

pub data Error : Type 0 where
  overflow : Error
  negative_tokens : Error
  nil_rate : Error

abbrev pub zero_amount : Amount
zero_amount = record { coefficient = 0; scale = 0 }

-- The loop of `newAmount` that drops trailing zeros of the fraction.
unfoldable pub trim : ℕ → ℕ → Amount
trim coefficient zero = record { coefficient = coefficient; scale = 0 }
trim coefficient (suc scale) =
    let shorter = trim (coefficient / 10) scale in
    if coefficient % 10 == 0
    then shorter
    else record { coefficient = coefficient; scale = suc scale }

unfoldable pub amount_text : Amount → Bytes
amount_text a = format a.coefficient a.scale

unfoldable pub bounded : Amount → Result Error Amount
bounded a = if ltb 24 a.scale || ltb 128 (length (amount_text a)) then err overflow else ok a

unfoldable pub new_amount : ℕ → ℕ → Result Error Amount
unfolding trim bounded
new_amount coefficient scale =
    if coefficient == 0 then ok zero_amount else bounded (trim coefficient scale)

-- `powerOfTen(scale-a.scale)` is multiplied in only where the scales differ; at equal scales it is 1.
unfoldable pub raised : ℕ → ℕ → ℕ → ℕ
raised coefficient from to = if ltb from to then coefficient * 10 ^ (to - from) else coefficient

unfoldable pub common_scale : Amount → Amount → ℕ
common_scale a b = if ltb a.scale b.scale then b.scale else a.scale

unfoldable pub add : Amount → Amount → Result Error Amount
unfolding new_amount raised
add a b =
    let scale = common_scale a b in
    new_amount (raised a.coefficient a.scale scale + raised b.coefficient b.scale scale) scale

unfoldable pub for_tokens : Rate → ℤ → Result Error Amount
unfolding new_amount
for_tokens r (negsuc n) = err negative_tokens
for_tokens r (pos n) =
    if n == 0 || r.coefficient == 0
    then ok zero_amount
    else new_amount (r.coefficient * n) (r.scale + 6)
