-- ===== src/Pricing/OpenAi/Value.antt =====
-- What the OpenAI calculator (internal/usage/pricing/openai.go) returns, on every branch.
use copilotd.Prelude.{
  ℕ, ◌+◌, ◌-◌, ◌*◌, ◌^◌, ◌≤◌, ◌<◌, ◌≡◌, ◌↔◌, ◌∙◌, sym, ap, arith, List, [], ◌∷◌, Option, none, some,
  ℤ, pos, pos_part, false, Bool-cases, inl, inr, ok, All,
}
use copilotd.Pricing.Amount.{Amount}
use copilotd.Pricing.Amount.Exact.{IsExact}
use copilotd.Pricing.Native.{OpenAiUsage}
use copilotd.Pricing.Contribution.{
  Contribution, PricedLine, Rates, sum_priced_lines, needs_rate, absent,
}
use copilotd.Pricing.Contribution.Exact.{worth, sum_priced_lines-IsExact}
use copilotd.Pricing.Contribution.Total.{
  IsChargeable, sum_priced_lines_total, All-IsRated, IsBounded, Charge-of, Charge-of_present,
}
use copilotd.Pricing.OpenAi.{inconsistent, lines, value_counts, calculate}

-- The four chargeable counts of a Turn as Go's nonnegative integers, the cache counts being parts of
-- the complete input.
pub record IsConsistent (i o c w : ℕ) (native : OpenAiUsage) : Type 0 where
  pub input : native.input_tokens ≡ pos i
  pub output : native.output_tokens ≡ pos o
  pub cached : native.cached_tokens ≡ some (pos c)
  pub cache_write : native.cache_write_tokens ≡ some (pos w)
  pub within : c + w ≤ i

-- Every charged line has a rate: input and output always, a cache line where its count is positive.
pub record IsRatedFor (c w : ℕ) (rates : Rates) : Type 0 where
  pub input : absent rates.input ≡ false
  pub output : absent rates.output ≡ false
  pub cache_read : needs_rate (some (pos c)) rates.cache_read ≡ false
  pub cache_write : needs_rate (some (pos w)) rates.cache_write ≡ false

-- The lines that a consistent Turn is charged.
abbrev pub charged : ℕ → ℕ → ℕ → ℕ → Rates → List PricedLine
charged i o c w rates =
    record { tokens = pos (i - c - w); rate = rates.input }
    ∷ record { tokens = pos o; rate = rates.output }
    ∷ record { tokens = pos c; rate = rates.cache_read }
    ∷ record { tokens = pos w; rate = rates.cache_write }
    ∷ []

lines-eq-charged :
    (i o c w : ℕ) (rates : Rates)
    → c + w ≤ i
    → lines (pos i) (pos o) (pos c) (pos w) rates ≡ charged i o c w rates
unfolding lines
lines-eq-charged i o c w rates h = ground arith

consistent_iff :
    (i o c w : ℕ) → (inconsistent (pos i) (pos o) (pos c) (pos w) ≡ false) ↔ (c + w ≤ i)
unfolding inconsistent
consistent_iff i o c w = (ground arith, ground arith)

counts_priced :
    (i o c w : ℕ) (rates : Rates)
    → c + w ≤ i
    → value_counts (pos i) (pos o) (some (pos c)) (some (pos w)) rates
      ≡ sum_priced_lines (charged i o c w rates)
unfolding value_counts
counts_priced i o c w rates h = rw ((consistent_iff i o c w).1 h, lines-eq-charged i o c w rates h)

counts_reached :
    (native : OpenAiUsage) (rates : Rates) (i o c w : ℕ)
    → IsConsistent i o c w native
    → IsRatedFor c w rates
    → calculate native rates ≡ value_counts (pos i) (pos o) (some (pos c)) (some (pos w)) rates
unfolding calculate
counts_reached native rates i o c w v r = ground arith

charged-IsChargeable :
    (i o c w : ℕ) (rates : Rates)
    → c + w ≤ i
    → i < 2 ^ 63
    → o < 2 ^ 63
    → IsRatedFor c w rates
    → IsBounded rates
    → All IsChargeable (charged i o c w rates)
charged-IsChargeable i o c w rates h p q r b = (
  Charge-of_present (i - c - w) rates.input (omega arith) b.input r.input,
  (
    Charge-of_present o rates.output q b.output r.output,
    (
      Charge-of c rates.cache_read (omega arith) b.cache_read r.cache_read,
      (Charge-of w rates.cache_write (omega arith) b.cache_write r.cache_write, tt),
    ),
  ),
)

-- A Turn that reports its four chargeable counts, each a nonnegative int64 and the cache counts together at
-- most the input, with a rate for each line that is charged and its rates as `ParseRate` bounds them, is
-- valued without an error and exactly: ordinary input, output and the two cache parts, each times its
-- rate (in units of 10 ^ -24 dollars).
pub calculate_priced :
    (native : OpenAiUsage) (rates : Rates) (i o c w : ℕ)
    → IsConsistent i o c w native
    → IsRatedFor c w rates
    → IsBounded rates
    → i < 2 ^ 63
    → o < 2 ^ 63
    → (t : Amount) × (calculate native rates ≡ ok (record { amount = t; reason = none }))
      × IsExact t (
          (i - c - w) * worth rates.input
          + o * worth rates.output
          + c * worth rates.cache_read
          + w * worth rates.cache_write)
calculate_priced native rates i o c w v r b p q =
    let chargeable = charged-IsChargeable i o c w rates v.within p q r b in
    let (t, summed) = sum_priced_lines_total (charged i o c w rates) (omega arith) chargeable in
    let (exact, priced) =
      sum_priced_lines-IsExact (charged i o c w rates)
        (All-IsRated (charged i o c w rates) chargeable) summed in
    (
      t,
      counts_reached native rates i o c w v r ∙ counts_priced i o c w rates v.within ∙ summed,
      omega (arith, exact),
    )

consistent_only :
    (input output cached cache_write : ℤ)
    → inconsistent input output cached cache_write ≡ false
    → (input ≡ pos (pos_part input))
      × (output ≡ pos (pos_part output))
      × (cached ≡ pos (pos_part cached))
      × (cache_write ≡ pos (pos_part cache_write))
      × (pos_part cached + pos_part cache_write ≤ pos_part input)
unfolding inconsistent
consistent_only input output cached cache_write h = ground arith

-- The number that an optional count stands for where it is a nonnegative one.
abbrev pub count_of : Option ℤ → ℕ
count_of none = 0
count_of (some n) = pos_part n

counts_only :
    (input output : ℤ) (cached cache_write : Option ℤ) (rates : Rates) {k : Contribution}
    → value_counts input output cached cache_write rates ≡ ok k
    → k.reason ≡ none
    → (input ≡ pos (pos_part input))
      × (output ≡ pos (pos_part output))
      × (cached ≡ some (pos (count_of cached)))
      × (cache_write ≡ some (pos (count_of cache_write)))
      × (count_of cached + count_of cache_write ≤ pos_part input)
unfolding value_counts
counts_only input output none cache_write rates h e = ground arith
counts_only input output (some cached) none rates h e = ground arith
counts_only input output (some cached) (some cache_write) rates h e =
    elim (Bool-cases (inconsistent input output cached cache_write)) [
      | inl bad ↦ ground arith
      | inr fine ↦
          let (a, b, c, d, within) = consistent_only input output cached cache_write fine in
          (a, b, ap some c, ap some d, within)
    ]

rated_only :
    (native : OpenAiUsage) (rates : Rates) {k : Contribution}
    → calculate native rates ≡ ok k
    → k.reason ≡ none
    → (absent rates.input ≡ false)
      × (absent rates.output ≡ false)
      × (needs_rate native.cached_tokens rates.cache_read ≡ false)
      × (needs_rate native.cache_write_tokens rates.cache_write ≡ false)
      × (value_counts native.input_tokens native.output_tokens native.cached_tokens
            native.cache_write_tokens rates
          ≡ ok k)
unfolding calculate
rated_only native rates h e = ground arith

-- A contribution with no exclusion reason comes only from a Turn whose four counts are reported and
-- nonnegative, with the cache counts within the input and a rate for each charged line.
pub calculate_priced_only :
    (native : OpenAiUsage) (rates : Rates) {k : Contribution}
    → calculate native rates ≡ ok k
    → k.reason ≡ none
    → IsConsistent
        (pos_part native.input_tokens)
        (pos_part native.output_tokens)
        (count_of native.cached_tokens)
        (count_of native.cache_write_tokens)
        native
      × IsRatedFor (count_of native.cached_tokens) (count_of native.cache_write_tokens) rates
calculate_priced_only native rates h e =
    let (input, output, read, write, reached) = rated_only native rates h e in
    let (a, b, c, d, within) =
      counts_only native.input_tokens native.output_tokens native.cached_tokens
        native.cache_write_tokens rates reached e in
    (
      record { input = a; output = b; cached = c; cache_write = d; within = within },
      record {
        input = input;
        output = output;
        cache_read = ap (λ n. needs_rate n rates.cache_read) (sym c) ∙ read;
        cache_write = ap (λ n. needs_rate n rates.cache_write) (sym d) ∙ write;
      },
    )
