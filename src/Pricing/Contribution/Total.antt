-- ===== src/Pricing/Contribution/Total.antt =====
-- The sum of internal/usage/pricing/contribution.go does not fail on int64 counts and bounded rates.
use native.Mathlib.Nat.{pow-le-pow_right}
use copilotd.Prelude.{
  ℕ, ◌+◌, ◌-◌, ◌*◌, ◌^◌, ◌≤◌, ◌<◌, ◌≡◌, refl, ap, arith, List, [], ◌∷◌, Option, none, some, ℤ, pos,
  negsuc, pos_part, ◌==◌, false, Bool-cases, inl, inr, ok, All, ltb, pow_positive, length, pow_add,
  ◌∙◌, ◌||◌,
}
use copilotd.Pricing.Amount.{Amount, Rate, add, for_tokens, zero_amount, raised, common_scale}
use copilotd.Pricing.Amount.Bounds.{new_amount_fits}
use copilotd.Pricing.Amount.Exact.{IsExact, for_tokens-IsExact}
use copilotd.Pricing.Contribution.{
  PricedLine, line_amount, step, sum_from, sum_priced_lines, Rates, needs_rate, absent,
}
use copilotd.Pricing.Contribution.Exact.{
  IsRate, IsOptionalRate, worth, units, IsRated, step-IsExact,
}

-- `10 ^ k` for a small exponent, under a bound.
power_le : (j k : ℕ) → j ≤ k → 10 ^ j ≤ 10 ^ k
power_le j k h = pow-le-pow_right (omega arith) h

abbrev pub Fits : Amount → ℕ → Type 0
Fits a n = (a.coefficient ≤ n) × (a.scale ≤ 24)

exact_le : (c s n : ℕ) → c * 10 ^ 24 ≡ n * 10 ^ s → s ≤ 24 → c ≤ n
exact_le c s n h k = grind (arith, power_le s 24 k)

raised_le : (c from to : ℕ) → to ≤ 24 → raised c from to ≤ c * 10 ^ 24
unfolding raised
raised_le c from to h = elim (Bool-cases (ltb from to)) [
  | inl e ↦ rw e (grind (arith, power_le (to - from) 24 (omega arith)))
  | inr e ↦ rw e (omega arith)
]

common_scale_le : (a b : Amount) → a.scale ≤ 24 → b.scale ≤ 24 → common_scale a b ≤ 24
unfolding common_scale
common_scale_le a b h k = ground arith

add-Fits :
    (a b : Amount)
    → Fits a (10 ^ 60)
    → Fits b (10 ^ 60)
    → (t : Amount) × (add a b ≡ ok t) × (t.scale ≤ 24)
unfolding add
add-Fits a b f g =
    let scale = common_scale a b in
    let small = common_scale_le a b f.1 g.1 in
    let (t, made, below, narrow) =
      new_amount_fits (raised a.coefficient a.scale scale + raised b.coefficient b.scale scale)
        scale
        (omega (
          arith,
          raised_le a.coefficient a.scale scale small,
          raised_le b.coefficient b.scale scale small,
        ))
        small in
    (t, made, omega arith)

two_parts : (s : ℕ) → s ≤ 18 → 36 ≡ 18 - s + (18 + s)
two_parts s h = omega arith

-- A rate of at most 36 digits, in units of 10 ^ -18.
worth_lt : (r : Rate) → IsRate r → r.coefficient * 10 ^ (18 - r.scale) < 10 ^ 36
worth_lt r w =
    let unit : 10 ^ 36 ≡ 10 ^ (18 - r.scale) * 10 ^ (18 + r.scale) =
      ap (λ (k : ℕ). 10 ^ k) (two_parts r.scale w.fraction)
      ∙ pow_add 10 (18 - r.scale) (18 + r.scale) in
    grind (arith, unit, w.integer, pow_positive (18 - r.scale))

-- A nonnegative int64 count, and a bounded rate where the count is not zero.
abbrev pub Charge : ℤ → Option Rate → Type 0
Charge (pos n) none = n ≡ 0
Charge (pos n) (some r) = (n < 2 ^ 63) × IsRate r
Charge (negsuc n) rate = ⊥

abbrev pub IsChargeable : PricedLine → Type 0
IsChargeable line = Charge line.tokens line.rate

coefficient_lt : (r : Rate) → IsRate r → r.coefficient < 10 ^ 36
coefficient_lt r w =
    omega (arith, power_le (18 + r.scale) 36 (omega (arith, w.fraction)), w.integer)

product_lt : (c n : ℕ) → c < 10 ^ 36 → n < 2 ^ 63 → c * n < 10 ^ 55
product_lt c n h k = grind arith

for_tokens_fits :
    (r : Rate) (n : ℕ)
    → IsRate r
    → n < 2 ^ 63
    → (t : Amount) × (for_tokens r (pos n) ≡ ok t) × (t.scale ≤ 24)
unfolding for_tokens
for_tokens_fits r n w h = elim (Bool-cases (n == 0 || r.coefficient == 0)) [
  | inl e ↦ (zero_amount, rw e, omega arith)
  | inr e ↦
      let (t, made, below, narrow) =
        new_amount_fits (r.coefficient * n) (r.scale + 6)
          (omega (arith, product_lt r.coefficient n (coefficient_lt r w) h))
          (omega (arith, w.fraction)) in
      (t, rw e made, omega (arith, w.fraction))
]

-- What one step needs of the total so far, and leaves.
abbrev pub Totals : Amount → ℕ → Type 0
Totals t m = IsExact t m × (t.scale ≤ 24)

Totals-Fits : (t : Amount) (m : ℕ) → Totals t m → m < 10 ^ 60 → Fits t (10 ^ 60)
Totals-Fits t m (x, k) h = (omega (arith, exact_le t.coefficient t.scale m x k), k)

abbrev line_of : ℤ → Option Rate → PricedLine
line_of n rate = record { tokens = n; rate = rate }

rated_of_Charge : (n : ℤ) (rate : Option Rate) → Charge n rate → IsOptionalRate rate
rated_of_Charge n none c = tt
rated_of_Charge (pos n) (some r) c = c.1
rated_of_Charge (negsuc n) (some r) c = absurd c

Charge-fits :
    (total : Amount) (m : ℕ) (n : ℤ) (rate : Option Rate)
    → Totals total m
    → Charge n rate
    → m < 10 ^ 60
    → (t : Amount) × (step total (line_of n rate) ≡ ok t) × (t.scale ≤ 24)
unfolding step line_amount
Charge-fits total m (negsuc n) rate x c k = absurd c
Charge-fits total m (pos n) none x c k = (total, rw c, x.1)
Charge-fits total m (pos n) (some r) x (h, w) k = elim (Bool-cases (n == 0)) [
  | inl e ↦ (total, rw e, x.1)
  | inr e ↦
      let (part, made, narrow) = for_tokens_fits r n w h in
      let exact = for_tokens-IsExact r n w.fraction made in
      let below = product_lt (r.coefficient * 10 ^ (18 - r.scale)) n (worth_lt r w) h in
      let (t, added, small) = add-Fits total part (Totals-Fits total m x k) (
        Totals-Fits part (n * (r.coefficient * 10 ^ (18 - r.scale))) (exact, narrow)
          (omega (arith, below))) in
      (t, rw (e, made) added, small)
]

sum_from_fits :
    (total : Amount) (m : ℕ) (lines : List PricedLine)
    → Totals total m
    → All IsChargeable lines
    → m + units lines < 10 ^ 60
    → (t : Amount) × (sum_from total lines ≡ ok t)
unfolding sum_from
sum_from_fits total m [] x c k = (total, refl)
sum_from_fits total m (line ∷ lines) x (c, cs) k =
    let rated = rated_of_Charge line.tokens line.rate c in
    let (next, stepped, small) = Charge-fits total m line.tokens line.rate x c (omega (arith, k)) in
    let (t, summed) =
      sum_from_fits next (m + pos_part line.tokens * worth line.rate) lines
        (step-IsExact total m line x.0 rated stepped, small) cs (omega (arith, k)) in
    (t, rw stepped summed)

units_of_Charge : (n : ℤ) (rate : Option Rate) → Charge n rate → pos_part n * worth rate < 10 ^ 55
units_of_Charge (pos n) none c = omega arith
units_of_Charge (pos n) (some r) (h, w) = omega (arith, product_lt _ n (worth_lt r w) h)
units_of_Charge (negsuc n) rate c = absurd c

units_le : (lines : List PricedLine) → All IsChargeable lines → units lines ≤ length lines * 10 ^ 55
units_le [] c = omega arith
units_le (line ∷ lines) (c, cs) =
    omega (arith, units_of_Charge line.tokens line.rate c, units_le lines cs)

-- Up to a thousand lines, each a nonnegative int64 count at a bounded rate, or a count of zero with no
-- rate, are valued without an error and with no exclusion reason.
pub sum_priced_lines_total :
    (lines : List PricedLine)
    → length lines ≤ 1000
    → All IsChargeable lines
    → (t : Amount) × (sum_priced_lines lines ≡ ok (record { amount = t; reason = none }))
unfolding sum_priced_lines
sum_priced_lines_total lines few c =
    let (t, summed) =
      sum_from_fits zero_amount 0 lines (omega arith, omega arith) c
        (omega (arith, units_le lines c)) in
    (t, rw summed)

pub All-IsRated : (lines : List PricedLine) → All IsChargeable lines → All IsRated lines
All-IsRated [] c = tt
All-IsRated (line ∷ lines) (c, cs) = (rated_of_Charge line.tokens line.rate c, All-IsRated lines cs)

-- Every rate of a vector is one that `ParseRate` returns.
pub record IsBounded (rates : Rates) : Type 0 where
  pub input : IsOptionalRate rates.input
  pub output : IsOptionalRate rates.output
  pub cache_read : IsOptionalRate rates.cache_read
  pub cache_write : IsOptionalRate rates.cache_write

pub Charge-of :
    (n : ℕ) (rate : Option Rate)
    → n < 2 ^ 63
    → IsOptionalRate rate
    → needs_rate (some (pos n)) rate ≡ false
    → Charge (pos n) rate
Charge-of n none h w e = ground arith
Charge-of n (some r) h w e = (h, w)

pub Charge-of_present :
    (n : ℕ) (rate : Option Rate)
    → n < 2 ^ 63
    → IsOptionalRate rate
    → absent rate ≡ false
    → Charge (pos n) rate
Charge-of_present n none h w e = cc
Charge-of_present n (some r) h w e = (h, w)
