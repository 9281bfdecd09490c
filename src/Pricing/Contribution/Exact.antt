-- ===== src/Pricing/Contribution/Exact.antt =====
-- The sum of internal/usage/pricing/contribution.go is exact.
use copilotd.Prelude.{
  ℕ, ◌+◌, ◌-◌, ◌*◌, ◌^◌, ◌≤◌, ◌<◌, ◌≡◌, refl, arith, List, [], ◌∷◌, Option, none, some, ℤ, pos,
  negsuc, pos_part, true, Bool-cases, inl, inr, ok, All, >>=-eq-ok,
}
use copilotd.Pricing.Amount.{Amount, Rate, add, for_tokens, zero_amount}
use copilotd.Pricing.Amount.Exact.{IsExact, add-IsExact, for_tokens-IsExact}
use copilotd.Pricing.Contribution.{
  Contribution, PricedLine, line_amount, step, sum_from, sum_priced_lines, is_zero,
}

-- A rate as `ParseRate` bounds it: 18 integer and 18 fractional digits.
pub record IsRate (r : Rate) : Type 0 where
  pub fraction : r.scale ≤ 18
  pub integer : r.coefficient < 10 ^ (18 + r.scale)

abbrev pub IsOptionalRate : Option Rate → Type 0
IsOptionalRate none = Unit
IsOptionalRate (some r) = IsRate r

-- A rate in units of 10 ^ -18 dollars per million tokens.
abbrev pub worth : Option Rate → ℕ
worth none = 0
worth (some r) = r.coefficient * 10 ^ (18 - r.scale)

-- What the lines come to in units of 10 ^ -24 dollars.
abbrev pub units : List PricedLine → ℕ
units [] = 0
units (line ∷ lines) = pos_part line.tokens * worth line.rate + units lines

abbrev pub IsRated : PricedLine → Type 0
IsRated line = IsOptionalRate line.rate

pub line-IsExact :
    (rate : Option Rate) (n : ℤ) {t : Amount}
    → IsOptionalRate rate
    → line_amount rate n ≡ ok t
    → IsExact t (pos_part n * worth rate)
unfolding line_amount
line-IsExact none n w h = cc
line-IsExact (some r) (pos n) w h = for_tokens-IsExact r n w.fraction h
line-IsExact (some r) (negsuc n) w h = unfold for_tokens in cc

zero_tokens : (n : ℤ) → is_zero n ≡ true → pos_part n ≡ 0
zero_tokens (pos n) h = ground arith
zero_tokens (negsuc n) h = refl

pub step-IsExact :
    (total : Amount) (m : ℕ) (line : PricedLine) {t : Amount}
    → IsExact total m
    → IsRated line
    → step total line ≡ ok t
    → IsExact t (m + pos_part line.tokens * worth line.rate)
unfolding step
step-IsExact total m line {t} x w h = elim (Bool-cases (is_zero line.tokens)) [
  | inl e ↦
      let same : t ≡ total = ground arith in rw (same, zero_tokens line.tokens e) (omega (arith, x))
  | inr e ↦
      let (part, valued, added) =
        >>=-eq-ok (line_amount line.rate line.tokens) (add total) (rw e at h) in
      add-IsExact total part m _ added x (line-IsExact line.rate line.tokens w valued)
]

sum_from-IsExact :
    (total : Amount) (m : ℕ) (lines : List PricedLine) {t : Amount}
    → IsExact total m
    → All IsRated lines
    → sum_from total lines ≡ ok t
    → IsExact t (m + units lines)
unfolding sum_from
sum_from-IsExact total m [] {t} x w h =
    let same : t ≡ total = ground arith in rw same (omega (arith, x))
sum_from-IsExact total m (line ∷ lines) {t} x w h =
    let (next, stepped, summed) = >>=-eq-ok (step total line) (λ u. sum_from u lines) h in
    omega (
      arith,
      sum_from-IsExact next (m + pos_part line.tokens * worth line.rate) lines
          (step-IsExact total m line x w.0 stepped) w.1 summed,
    )

-- The priced lines come to exactly their tokens times their rates, in units of 10 ^ -24 dollars,
-- whenever a contribution is returned.
pub sum_priced_lines-IsExact :
    (lines : List PricedLine) {c : Contribution}
    → All IsRated lines
    → sum_priced_lines lines ≡ ok c
    → IsExact c.amount (units lines) × (c.reason ≡ none)
unfolding sum_priced_lines
sum_priced_lines-IsExact lines {c} w h =
    let (total, summed, e) = >>=-eq-ok (sum_from zero_amount lines) _ h in
    let made : c ≡ record { amount = total; reason = none } = ground arith in
    rw made (omega (arith, sum_from-IsExact zero_amount 0 lines (omega arith) w summed), refl)
