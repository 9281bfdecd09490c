-- ===== src/Examples/Prices.antt =====
-- A Turn of a thousand input tokens at 2.5 dollars a million (internal/usage/pricing).
use copilotd.Prelude.{
  ◌≡◌, refl, arith, ◌+◌, ◌*◌, ◌-◌, ◌^◌, ◌≤◌, ◌⊎◌, List, [], ◌∷◌, Option, none, some, codes, ok, pos,
  All,
}
use copilotd.Pricing.Amount.{Amount, Rate, add, for_tokens, new_amount, common_scale, amount_text}
use copilotd.Pricing.Amount.Exact.{add-IsValue, for_tokens-IsValue, IsExact}
use copilotd.Pricing.Amount.{trim, bounded}
use copilotd.Pricing.Decimal.{digits, print}
use copilotd.Pricing.ParseAmount.{parse_amount}
use copilotd.Pricing.ParseAmount.RoundTrip.{parse_amount-amount_text}
use copilotd.Pricing.ParseRate.{parse_rate}
use copilotd.Pricing.ParseRate.Bounded.{parse_rate-IsRate}
use copilotd.Pricing.Native.{OpenAiUsage, AnthropicUsage}
use copilotd.Pricing.Contribution.{ExclusionReason, Rates, PricedLine, sum_priced_lines}
use copilotd.Pricing.Contribution.Exact.{IsRate, units, worth, sum_priced_lines-IsExact}
use copilotd.Pricing.Contribution.Total.{IsBounded, sum_priced_lines_total}
use copilotd.Pricing.OpenAi
use copilotd.Pricing.OpenAi.Value as OpenAiValue
use copilotd.Pricing.Anthropic
use copilotd.Pricing.Anthropic.Value as AnthropicValue
use copilotd.Pricing.Tariff.{ContextTier, RateSchedule, schedule_rates}
use copilotd.Pricing.Tariff.Selection.{Split, schedule_rates-Split}
use copilotd.Pricing.Decimal.{format}

format_small : format 12345 2 ≡ codes "123.45"
unfolding format
format_small = refl

format_padded : format 75 4 ≡ codes "0.0075"
unfolding format
format_padded = refl

abbrev half : Amount
half = record { coefficient = 5; scale = 1 }

abbrev quarter : Amount
quarter = record { coefficient = 25; scale = 2 }

abbrev rate : Rate
rate = record { coefficient = 25; scale = 1 }

half_and_quarter : add half quarter ≡ ok (record { coefficient = 75; scale = 2 })
unfolding add common_scale amount_text format
half_and_quarter = refl

add-IsValue_example : 75 * 10 ^ (1 + 2) ≡ (5 * 10 ^ 2 + 25 * 10 ^ 1) * 10 ^ 2
add-IsValue_example = add-IsValue half quarter half_and_quarter

thousand_tokens : for_tokens rate (pos 1000) ≡ ok (record { coefficient = 25; scale = 4 })
unfolding for_tokens amount_text format
thousand_tokens = refl

for_tokens-IsValue_example : 25 * 10 ^ (1 + 6) ≡ 25 * 1000 * 10 ^ 4
for_tokens-IsValue_example = for_tokens-IsValue rate 1000 thousand_tokens

shortened : new_amount 1500 4 ≡ ok (record { coefficient = 15; scale = 2 })
unfolding new_amount trim bounded amount_text format digits print
shortened = refl

parse_amount-amount_text_example :
    parse_amount (amount_text (record { coefficient = 15; scale = 2 }))
    ≡ ok (record { coefficient = 15; scale = 2 })
parse_amount-amount_text_example = parse_amount-amount_text 1500 4 _ shortened

parsed_rate : parse_rate (codes "0.125e+2") ≡ ok (record { coefficient = 125; scale = 1 })
unfolding parse_rate
parsed_rate = refl

parse_rate-IsRate_example : IsRate (record { coefficient = 125; scale = 1 })
parse_rate-IsRate_example = parse_rate-IsRate (codes "0.125e+2") _ parsed_rate

rate-IsRate : IsRate rate
rate-IsRate = record { fraction = omega arith; integer = omega arith }

abbrev one_line : List PricedLine
one_line = record { tokens = pos 1000; rate = some rate } ∷ []

one_line_sum :
    sum_priced_lines one_line
    ≡ ok (record { amount = record { coefficient = 25; scale = 4 }; reason = none })
unfolding sum_priced_lines for_tokens amount_text format add common_scale
one_line_sum = refl

sum_priced_lines-IsExact_example :
    IsExact (record { coefficient = 25; scale = 4 }) (units one_line)
    × (◌≡◌ {A = Option ExclusionReason} none none)
sum_priced_lines-IsExact_example = sum_priced_lines-IsExact one_line (rate-IsRate, tt) one_line_sum

sum_priced_lines_total_example :
    (t : Amount) × (sum_priced_lines one_line ≡ ok (record { amount = t; reason = none }))
sum_priced_lines_total_example =
    sum_priced_lines_total one_line (omega arith) ((omega arith, rate-IsRate), tt)

abbrev rates : Rates
rates = record { input = some rate; output = some rate; cache_read = some rate; cache_write = none }

rates-IsBounded : IsBounded rates
rates-IsBounded = record {
  input = rate-IsRate;
  output = rate-IsRate;
  cache_read = rate-IsRate;
  cache_write = tt;
}

abbrev turn : OpenAiUsage
turn = record {
  input_tokens = pos 1000;
  output_tokens = pos 20;
  cached_tokens = some (pos 400);
  cache_write_tokens = some (pos 0);
  reasoning_tokens = none;
  total_tokens = none;
}

calculate_priced_example :
    (t : Amount) × (OpenAi.calculate turn rates ≡ ok (record { amount = t; reason = none }))
    × IsExact t (
        (1000 - 400 - 0) * worth (some rate)
        + 20 * worth (some rate)
        + 400 * worth (some rate)
        + 0 * worth none)
calculate_priced_example =
    OpenAiValue.calculate_priced turn rates 1000 20 400 0
      (record {
        input = refl;
        output = refl;
        cached = refl;
        cache_write = refl;
        within = omega arith;
      })
      (record { input = refl; output = refl; cache_read = refl; cache_write = refl })
      rates-IsBounded (omega arith) (omega arith)

turn_priced :
    OpenAi.calculate turn rates
    ≡ ok (record { amount = record { coefficient = 255; scale = 5 }; reason = none })
unfolding OpenAi.calculate sum_priced_lines for_tokens amount_text format add common_scale
turn_priced = refl

calculate_priced_only_example :
    OpenAiValue.IsConsistent 1000 20 400 0 turn × OpenAiValue.IsRatedFor 400 0 rates
calculate_priced_only_example = OpenAiValue.calculate_priced_only turn rates turn_priced refl

abbrev message : AnthropicUsage
message = record {
  input_tokens = pos 1000;
  output_tokens = pos 20;
  cache_creation_input_tokens = some (pos 0);
  cache_read_input_tokens = some (pos 400);
  ephemeral_5m_input_tokens = none;
  ephemeral_1h_input_tokens = none;
  thinking_tokens = none;
}

calculate_reported_example :
    (t : Amount) × (Anthropic.calculate message rates ≡ ok (record { amount = t; reason = none }))
    × IsExact t (
        1000 * worth (some rate)
        + 20 * worth (some rate)
        + 400 * worth (some rate)
        + 0 * worth none)
calculate_reported_example =
    AnthropicValue.calculate_reported message rates 1000 20 400 0
      (record { input = refl; output = refl; cache_read = refl; cache_creation = refl })
      (record { input = refl; output = refl; cache_read = refl; cache_write = refl })
      rates-IsBounded (omega arith) (omega arith) (omega arith) (omega arith)

message_priced :
    Anthropic.calculate message rates
    ≡ ok (record { amount = record { coefficient = 355; scale = 5 }; reason = none })
unfolding Anthropic.calculate Anthropic.missing_anthropic_rate sum_priced_lines for_tokens
    amount_text format add common_scale
message_priced = refl

calculate-IsReported_only_example :
    AnthropicValue.IsReported 1000 20 400 0 message × AnthropicValue.IsRatedFor 400 0 rates
calculate-IsReported_only_example =
    AnthropicValue.calculate-IsReported_only message rates message_priced refl

abbrev no_rates : Rates
no_rates = record { input = none; output = none; cache_read = none; cache_write = none }

abbrev schedule : RateSchedule
schedule = record {
  base = no_rates;
  tiers =
      record { threshold = 200; rates = rates }
      ∷ record { threshold = 1000; rates = no_rates }
      ∷ [];
}

schedule_rates-Split_example :
    (All (λ t. 300 ≤ t.threshold) schedule.tiers × (schedule_rates schedule 300 ≡ no_rates))
    ⊎ ((t : ContextTier) × Split 300 schedule.tiers t × (schedule_rates schedule 300 ≡ t.rates))
schedule_rates-Split_example = schedule_rates-Split schedule 300 ((omega arith, tt), (tt, tt))
