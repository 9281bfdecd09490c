-- ===== src/Pricing/Contribution.antt =====
-- internal/usage/pricing/contribution.go and the rate vectors of snapshot.go.
pub mod Exact
pub mod Total
use copilotd.Prelude.{
  ℕ, List, [], ◌∷◌, Option, none, some, ℤ, pos, negsuc, pos_part, neg_part, ltb, ltb_ℤ, ◌==◌,
  if◌then◌else◌, Result, ok, err, ◌>>=◌, Bool, true, false,
}
use copilotd.Pricing.Amount.{Amount, Rate, Error, nil_rate, zero_amount, add, for_tokens}

pub data ExclusionReason : Type 0 where
  missing_rate missing_usage inconsistent_usage : ExclusionReason

-- `Reason` is empty where it is `none`.
pub record Contribution : Type 0 where
  pub amount : Amount
  pub reason : Option ExclusionReason

abbrev pub excluded : ExclusionReason → Contribution
excluded r = record { amount = zero_amount; reason = some r }

-- One rate vector; an absent rate is a nil pointer.
pub record Rates : Type 0 where
  pub input : Option Rate
  pub output : Option Rate
  pub cache_read : Option Rate
  pub cache_write : Option Rate

-- `count != nil && *count > 0 && rate == nil`
abbrev pub needs_rate : Option ℤ → Option Rate → Bool
needs_rate none r = false
needs_rate (some n) (some r) = false
needs_rate (some n) none = ltb_ℤ (pos 0) n

abbrev pub absent {ℓ} : {A : Type ℓ} → Option A → Bool
absent none = true
absent (some a) = false

abbrev pub is_negative : ℤ → Bool
is_negative n = ltb_ℤ n (pos 0)

pub record PricedLine : Type 0 where
  pub tokens : ℤ
  pub rate : Option Rate

-- What `line.rate.ForTokens` returns; a nil rate is a nil dereference.
unfoldable pub line_amount : Option Rate → ℤ → Result Error Amount
line_amount none n = err nil_rate
line_amount (some r) n = for_tokens r n

abbrev pub is_zero : ℤ → Bool
is_zero (pos n) = n == 0
is_zero (negsuc n) = false

unfoldable pub step : Amount → PricedLine → Result Error Amount
unfolding line_amount
step total line =
    if is_zero line.tokens
    then ok total
    else (do part ← line_amount line.rate line.tokens; add total part)

unfoldable pub sum_from : Amount → List PricedLine → Result Error Amount
unfolding step
sum_from total [] = ok total
sum_from total (line ∷ lines) = do total' ← step total line; sum_from total' lines

unfoldable pub sum_priced_lines : List PricedLine → Result Error Contribution
unfolding sum_from
sum_priced_lines lines = do
  total ← sum_from zero_amount lines
  ok (record { amount = total; reason = none })
