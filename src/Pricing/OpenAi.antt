-- ===== src/Pricing/OpenAi.antt =====
-- internal/usage/pricing/openai.go: the calculator at a selected rate vector.
pub mod Value
use copilotd.Prelude.{
  ℕ, List, [], ◌∷◌, Option, none, some, ℤ, pos, negsuc, ltb_ℤ, ◌-ℤ◌, if◌then◌else◌, Result, ok, err,
  Bool, true, false, ◌||◌, ◌&&◌, pos_part, neg_part, ltb,
}
use copilotd.Pricing.Amount.{Rate, Error}
use copilotd.Pricing.Native.{OpenAiUsage}
use copilotd.Pricing.Contribution.{
  Contribution, ExclusionReason, missing_rate, missing_usage, inconsistent_usage, excluded, Rates,
  PricedLine, sum_priced_lines, needs_rate, absent, is_negative,
}

unfoldable pub inconsistent : ℤ → ℤ → ℤ → ℤ → Bool
unfolding ◌-ℤ◌
inconsistent input output cached cache_write =
    is_negative input
    || is_negative output
    || is_negative cached
    || is_negative cache_write
    || ltb_ℤ input cached
    || ltb_ℤ (input -ℤ cached) cache_write

unfoldable pub lines : ℤ → ℤ → ℤ → ℤ → Rates → List PricedLine
unfolding ◌-ℤ◌
lines input output cached cache_write rates =
    record { tokens = input -ℤ cached -ℤ cache_write; rate = rates.input }
    ∷ record { tokens = output; rate = rates.output }
    ∷ record { tokens = cached; rate = rates.cache_read }
    ∷ record { tokens = cache_write; rate = rates.cache_write }
    ∷ []

-- From the checks of the two cache pointers on.
unfoldable pub value_counts : ℤ → ℤ → Option ℤ → Option ℤ → Rates → Result Error Contribution
unfolding inconsistent lines
value_counts input output (some cached) (some cache_write) rates =
    if inconsistent input output cached cache_write
    then ok (excluded inconsistent_usage)
    else sum_priced_lines (lines input output cached cache_write rates)
value_counts input output _ _ rates = ok (excluded missing_usage)

unfoldable pub calculate : OpenAiUsage → Rates → Result Error Contribution
unfolding value_counts
calculate native rates =
    if absent rates.input || absent rates.output
    then ok (excluded missing_rate)
    else if needs_rate native.cached_tokens rates.cache_read
    then ok (excluded missing_rate)
    else if needs_rate native.cache_write_tokens rates.cache_write
    then ok (excluded missing_rate)
    else value_counts native.input_tokens native.output_tokens native.cached_tokens
        native.cache_write_tokens rates
