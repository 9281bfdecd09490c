-- ===== src/Pricing/Tariff.antt =====
-- internal/usage/pricing/snapshot.go (`Tariff`, `rateSchedule.rates`), modes.go (`useFastRates`), and
-- the tariff-level calculators of openai.go and anthropic.go.
pub mod Selection
use copilotd.Prelude.{
  ℕ, zero, suc, ◌+◌, ◌-◌, ◌/◌, ◌%◌, ◌^◌, List, [], ◌∷◌, Option, none, some, ℤ, pos, negsuc,
  pos_part, ltb, leb, ◌==◌, if◌then◌else◌, Result, ok, err, Bool, true, false, ◌||◌, ◌&&◌, not,
  Bytes, codes, length, get_elem?, equal,
}
use copilotd.Pricing.Amount.{Error}
use copilotd.Pricing.Native.{OpenAiUsage, AnthropicUsage}
use copilotd.Pricing.Contribution.{
  Contribution, ExclusionReason, missing_rate, missing_usage, inconsistent_usage, excluded, Rates,
  is_negative,
}
use copilotd.Pricing.OpenAi
use copilotd.Pricing.Anthropic
use copilotd.Pricing.Anthropic.{missing_anthropic_rate}

pub record ContextTier : Type 0 where
  pub threshold : ℕ
  pub rates : Rates

pub record RateSchedule : Type 0 where
  pub base : Rates
  pub tiers : List ContextTier

pub record Tariff : Type 0 where
  pub normal : RateSchedule
  pub fast : Option RateSchedule

-- `sort.Search`: the binary search between `i` and `j`. An interval of fewer than 2 ^ fuel places is
-- searched to its end; a fuel of its length is enough too.
unfoldable pub search_between : ℕ → (ℕ → Bool) → ℕ → ℕ → ℕ
search_between zero f i j = i
search_between (suc fuel) f i j =
    let h = (i + j) / 2 in
    elim (ltb i j) [
      | false ↦ i
      | true ↦ elim (f h) [
        | true ↦ search_between fuel f i h
        | false ↦ search_between fuel f (h + 1) j
      ]
    ]

-- The predicate that the search of `rates` tests. The search stays within the list.
unfoldable pub not_below : ℕ → List ContextTier → ℕ → Bool
not_below n tiers k = elim (get_elem? tiers k) [ none ↦ true | some t ↦ leb n t.threshold ]

rates_at : Rates → Option ContextTier → Rates
rates_at base none = base
rates_at base (some t) = t.rates

unfoldable pub schedule_rates : RateSchedule → ℕ → Rates
unfolding rates_at search_between not_below
schedule_rates s n =
    let first_not_below =
      search_between (length s.tiers) (not_below n s.tiers) 0 (length s.tiers) in
    if first_not_below == 0
    then s.base
    else rates_at s.base (get_elem? s.tiers (first_not_below - 1))

lower : ℕ → ℕ
lower c = if leb b'A' c && leb c b'Z' then c + 32 else c

-- `equalASCIIFold`: the target is spelled in lower case.
unfoldable pub equal_ascii_fold : Bytes → Bytes → Bool
unfolding lower
equal_ascii_fold [] [] = true
equal_ascii_fold [] (b ∷ ys) = false
equal_ascii_fold (a ∷ xs) [] = false
equal_ascii_fold (a ∷ xs) (b ∷ ys) = lower a == b && equal_ascii_fold xs ys

unfoldable pub is_fast_alias : Bytes → Bool
unfolding equal_ascii_fold
is_fast_alias value =
    equal_ascii_fold value (codes "fast") || equal_ascii_fold value (codes "priority")

unfoldable pub use_fast_rates : Option Bytes → Bool
unfolding is_fast_alias
use_fast_rates none = false
use_fast_rates (some tier) = leb (length tier) 8 && is_fast_alias tier

-- The schedule that the completed response's service tier selects.
unfoldable pub schedule_for : Tariff → Option Bytes → RateSchedule
unfolding use_fast_rates
schedule_for t tier = elim t.fast [
  | none ↦ t.normal
  | some fast ↦ if use_fast_rates tier then fast else t.normal
]

unfoldable pub calculate_open_ai_at : RateSchedule → OpenAiUsage → Result Error Contribution
calculate_open_ai_at schedule native =
    if length schedule.tiers == 0
    then OpenAi.calculate native schedule.base
    else if is_negative native.input_tokens
    then ok (excluded inconsistent_usage)
    else OpenAi.calculate native (schedule_rates schedule (pos_part native.input_tokens))

unfoldable pub calculate_open_ai : Tariff → OpenAiUsage → Option Bytes → Result Error Contribution
unfolding calculate_open_ai_at schedule_for
calculate_open_ai t native tier = calculate_open_ai_at (schedule_for t tier) native

-- `anthropicCompleteInput`: the sum in uint64, with its overflow test before each addition.
checked_add : ℕ → ℕ → Option ℕ
checked_add total value =
    if ltb (2 ^ 64 - 1 - total) value then none else some ((total + value) % 2 ^ 64)

sum_counts : ℕ → ℕ → ℕ → Result ExclusionReason ℕ
unfolding checked_add
sum_counts input creation read = elim (checked_add input creation) [
  | none ↦ err inconsistent_usage
  | some part ↦ elim (checked_add part read) [
    | none ↦ err inconsistent_usage
    | some total ↦ ok total
  ]
]

unfoldable pub complete_counts : ℤ → Option ℤ → Option ℤ → Result ExclusionReason ℕ
unfolding sum_counts
complete_counts input (some read) (some creation) =
    if is_negative input || is_negative read || is_negative creation
    then err inconsistent_usage
    else sum_counts (pos_part input) (pos_part creation) (pos_part read)
complete_counts input _ _ = err missing_usage

unfoldable pub anthropic_complete_input : AnthropicUsage → Result ExclusionReason ℕ
unfolding complete_counts
anthropic_complete_input native =
    complete_counts native.input_tokens native.cache_read_input_tokens
      native.cache_creation_input_tokens

missing_in_tiers : AnthropicUsage → List ContextTier → Bool
missing_in_tiers native [] = true
missing_in_tiers native (t ∷ tiers) =
    let rest = missing_in_tiers native tiers in
    if not (missing_anthropic_rate native t.rates) then false else rest

unfoldable pub missing_anthropic_rate_in_every_vector : Tariff → AnthropicUsage → Bool
unfolding missing_in_tiers
missing_anthropic_rate_in_every_vector t native =
    if not (missing_anthropic_rate native t.normal.base)
    then false
    else missing_in_tiers native t.normal.tiers

unselected : Tariff → AnthropicUsage → ExclusionReason → Result Error Contribution
unfolding missing_anthropic_rate_in_every_vector
unselected t native reason =
    if missing_anthropic_rate_in_every_vector t native
    then ok (excluded missing_rate)
    else ok (excluded reason)

selected : Tariff → AnthropicUsage → Result ExclusionReason ℕ → Result Error Contribution
unfolding unselected
selected t native (err reason) = unselected t native reason
selected t native (ok total) = Anthropic.calculate native (schedule_rates t.normal total)

unfoldable pub calculate_anthropic : Tariff → AnthropicUsage → Result Error Contribution
unfolding selected anthropic_complete_input
calculate_anthropic t native =
    if length t.normal.tiers == 0
    then Anthropic.calculate native (schedule_rates t.normal 0)
    else selected t native (anthropic_complete_input native)
