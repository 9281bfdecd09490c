-- ===== src/Pricing/Anthropic/Value.antt =====
-- What the Anthropic calculator (internal/usage/pricing/anthropic.go) returns for a priceable Turn.
use copilotd.Prelude.{
  ℕ, ◌+◌, ◌*◌, ◌^◌, ◌<◌, ◌≡◌, ◌∙◌, ap, sym, arith, Option, none, some, ℤ, pos, pos_part, All, false,
  Bool-cases, inl, inr, ◌||◌, ok,
}
use copilotd.Pricing.Amount.{Amount}
use copilotd.Pricing.Amount.Exact.{IsExact}
use copilotd.Pricing.Native.{AnthropicUsage}
use copilotd.Pricing.Contribution.{
  Contribution, is_negative, Rates, sum_priced_lines, needs_rate, absent,
}
use copilotd.Pricing.Contribution.Exact.{worth, sum_priced_lines-IsExact}
use copilotd.Pricing.Contribution.Total.{
  IsBounded, IsChargeable, sum_priced_lines_total, All-IsRated, Charge-of, Charge-of_present,
}
use copilotd.Pricing.Anthropic.{missing_anthropic_rate, lines, value_counts, calculate}

-- The four additive counts of a Turn as Go's nonnegative integers.
pub record IsReported (i o r w : ℕ) (native : AnthropicUsage) : Type 0 where
  pub input : native.input_tokens ≡ pos i
  pub output : native.output_tokens ≡ pos o
  pub cache_read : native.cache_read_input_tokens ≡ some (pos r)
  pub cache_creation : native.cache_creation_input_tokens ≡ some (pos w)

-- Every charged line has a rate: input and output always, a cache line where its count is positive.
pub record IsRatedFor (r w : ℕ) (rates : Rates) : Type 0 where
  pub input : absent rates.input ≡ false
  pub output : absent rates.output ≡ false
  pub cache_read : needs_rate (some (pos r)) rates.cache_read ≡ false
  pub cache_write : needs_rate (some (pos w)) rates.cache_write ≡ false

charged-IsChargeable :
    (i o r w : ℕ) (rates : Rates)
    → i < 2 ^ 63
    → o < 2 ^ 63
    → r < 2 ^ 63
    → w < 2 ^ 63
    → IsRatedFor r w rates
    → IsBounded rates
    → All IsChargeable (lines (pos i) (pos o) (pos r) (pos w) rates)
unfolding lines
charged-IsChargeable i o r w rates hi ho hr hw rated b = (
  Charge-of_present i rates.input hi b.input rated.input,
  (
    Charge-of_present o rates.output ho b.output rated.output,
    (
      Charge-of r rates.cache_read hr b.cache_read rated.cache_read,
      (Charge-of w rates.cache_write hw b.cache_write rated.cache_write, tt),
    ),
  ),
)

counts_reached :
    (native : AnthropicUsage) (rates : Rates) (i o r w : ℕ)
    → IsReported i o r w native
    → IsRatedFor r w rates
    → calculate native rates ≡ value_counts (pos i) (pos o) (some (pos r)) (some (pos w)) rates
unfolding calculate
counts_reached native rates i o r w v rated = ground arith

counts_priced :
    (i o r w : ℕ) (rates : Rates)
    → value_counts (pos i) (pos o) (some (pos r)) (some (pos w)) rates
      ≡ sum_priced_lines (lines (pos i) (pos o) (pos r) (pos w) rates)
unfolding value_counts
counts_priced i o r w rates = ground arith

-- A Turn that reports both cache counts, with all counts nonnegative and a rate for each line that is
-- charged, is valued without an error and exactly: input, output, cache read and cache creation are
-- additive, each times its rate (in units of 10 ^ -24 dollars; the counts are int64 and the rates
-- as `ParseRate` bounds them).
pub calculate_reported :
    (native : AnthropicUsage) (rates : Rates) (i o r w : ℕ)
    → IsReported i o r w native
    → IsRatedFor r w rates
    → IsBounded rates
    → i < 2 ^ 63
    → o < 2 ^ 63
    → r < 2 ^ 63
    → w < 2 ^ 63
    → (t : Amount) × (calculate native rates ≡ ok (record { amount = t; reason = none }))
      × IsExact t (
          i * worth rates.input
          + o * worth rates.output
          + r * worth rates.cache_read
          + w * worth rates.cache_write)
unfolding lines
calculate_reported native rates i o r w v rated b hi ho hr hw =
    let charged = lines (pos i) (pos o) (pos r) (pos w) rates in
    let chargeable = charged-IsChargeable i o r w rates hi ho hr hw rated b in
    let (t, summed) = sum_priced_lines_total charged (omega arith) chargeable in
    let (exact, priced) =
      sum_priced_lines-IsExact charged (All-IsRated charged chargeable) summed in
    (
      t,
      counts_reached native rates i o r w v rated ∙ counts_priced i o r w rates ∙ summed,
      omega (arith, exact),
    )

-- The number that an optional count stands for where it is a nonnegative one.
abbrev pub reported_count : Option ℤ → ℕ
reported_count none = 0
reported_count (some n) = pos_part n

nonnegative :
    (i o r w : ℤ)
    → (is_negative i || is_negative o || is_negative r || is_negative w) ≡ false
    → (i ≡ pos (pos_part i))
      × (o ≡ pos (pos_part o))
      × (r ≡ pos (pos_part r))
      × (w ≡ pos (pos_part w))
nonnegative i o r w h = ground arith

counts_reported :
    (i o : ℤ) (read creation : Option ℤ) (rates : Rates) {k : Contribution}
    → value_counts i o read creation rates ≡ ok k
    → k.reason ≡ none
    → (i ≡ pos (pos_part i))
      × (o ≡ pos (pos_part o))
      × (read ≡ some (pos (reported_count read)))
      × (creation ≡ some (pos (reported_count creation)))
unfolding value_counts
counts_reported i o none creation rates h e = ground arith
counts_reported i o (some r) none rates h e = ground arith
counts_reported i o (some r) (some w) rates h e =
    elim (Bool-cases (is_negative i || is_negative o || is_negative r || is_negative w)) [
      | inl bad ↦ ground arith
      | inr fine ↦ let (a, b, c, d) = nonnegative i o r w fine in (a, b, ap some c, ap some d)
    ]

rates_present :
    (native : AnthropicUsage) (rates : Rates) {k : Contribution}
    → calculate native rates ≡ ok k
    → k.reason ≡ none
    → (absent rates.input ≡ false)
      × (absent rates.output ≡ false)
      × (needs_rate native.cache_read_input_tokens rates.cache_read ≡ false)
      × (needs_rate native.cache_creation_input_tokens rates.cache_write ≡ false)
      × (value_counts native.input_tokens native.output_tokens native.cache_read_input_tokens
            native.cache_creation_input_tokens rates
          ≡ ok k)
unfolding calculate missing_anthropic_rate
rates_present native rates h e = ground arith

-- A contribution with no exclusion reason comes only from a Turn whose four counts are reported and
-- nonnegative, with a rate for each charged line.
pub calculate-IsReported_only :
    (native : AnthropicUsage) (rates : Rates) {k : Contribution}
    → calculate native rates ≡ ok k
    → k.reason ≡ none
    → IsReported
        (pos_part native.input_tokens)
        (pos_part native.output_tokens)
        (reported_count native.cache_read_input_tokens)
        (reported_count native.cache_creation_input_tokens)
        native
      × IsRatedFor
          (reported_count native.cache_read_input_tokens)
          (reported_count native.cache_creation_input_tokens)
          rates
calculate-IsReported_only native rates h e =
    let (input, output, read, write, reached) = rates_present native rates h e in
    let (a, b, c, d) =
      counts_reported native.input_tokens native.output_tokens native.cache_read_input_tokens
        native.cache_creation_input_tokens rates reached e in
    (
      record { input = a; output = b; cache_read = c; cache_creation = d },
      record {
        input = input;
        output = output;
        cache_read = ap (λ n. needs_rate n rates.cache_read) (sym c) ∙ read;
        cache_write = ap (λ n. needs_rate n rates.cache_write) (sym d) ∙ write;
      },
    )
