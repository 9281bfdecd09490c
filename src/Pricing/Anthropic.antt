-- ===== src/Pricing/Anthropic.antt =====
-- internal/usage/pricing/anthropic.go: the calculator at a selected rate vector.
pub mod Value
use copilotd.Prelude.{List, [], ◌∷◌, Option, none, some, ℤ, if◌then◌else◌, Result, ok, Bool, ◌||◌}
use copilotd.Pricing.Amount.{Error}
use copilotd.Pricing.Native.{AnthropicUsage}
use copilotd.Pricing.Contribution.{
  Contribution, missing_rate, missing_usage, inconsistent_usage, excluded, Rates, PricedLine,
  sum_priced_lines, needs_rate, absent, is_negative,
}

unfoldable pub missing_anthropic_rate : AnthropicUsage → Rates → Bool
missing_anthropic_rate native rates =
    absent rates.input
    || absent rates.output
    || needs_rate native.cache_read_input_tokens rates.cache_read
    || needs_rate native.cache_creation_input_tokens rates.cache_write

unfoldable pub lines : ℤ → ℤ → ℤ → ℤ → Rates → List PricedLine
lines input output cache_read cache_creation rates =
    record { tokens = input; rate = rates.input }
    ∷ record { tokens = output; rate = rates.output }
    ∷ record { tokens = cache_read; rate = rates.cache_read }
    ∷ record { tokens = cache_creation; rate = rates.cache_write }
    ∷ []

-- From the checks of the two cache pointers on: cache read, then cache creation.
unfoldable pub value_counts : ℤ → ℤ → Option ℤ → Option ℤ → Rates → Result Error Contribution
unfolding lines
value_counts input output (some cache_read) (some cache_creation) rates =
    if is_negative input
      || is_negative output
      || is_negative cache_read
      || is_negative cache_creation
    then ok (excluded inconsistent_usage)
    else sum_priced_lines (lines input output cache_read cache_creation rates)
value_counts input output _ _ rates = ok (excluded missing_usage)

unfoldable pub calculate : AnthropicUsage → Rates → Result Error Contribution
unfolding missing_anthropic_rate value_counts
calculate native rates =
    if missing_anthropic_rate native rates
    then ok (excluded missing_rate)
    else value_counts native.input_tokens native.output_tokens native.cache_read_input_tokens
        native.cache_creation_input_tokens rates
