-- ===== src/Usage/Projection/RoundTrip.antt =====
-- Typed usage and the vectors of its counts are two views of one thing.
use copilotd.Prelude.{List, [], ◌∷◌, Option, ℤ, ◌≡◌, ok, arith}
use copilotd.Pricing.Native.{AnthropicUsage, OpenAiUsage}
use copilotd.Usage.Projection.{
  anthropic_projection, open_ai_projection, anthropic_usage, open_ai_usage, values_of,
}

-- Takes any Messages usage record: the vector of its counts, each with the path it is read from, is
-- turned back into that record.
pub anthropic_usage-values_of :
    (native : AnthropicUsage) → anthropic_usage (values_of anthropic_projection native) ≡ ok native
anthropic_usage-values_of native = ground arith

pub open_ai_usage-values_of :
    (native : OpenAiUsage) → open_ai_usage (values_of open_ai_projection native) ≡ ok native
open_ai_usage-values_of native = ground arith

pub values_of-anthropic_usage :
    (values : List (Option ℤ)) {native : AnthropicUsage}
    → anthropic_usage values ≡ ok native
    → values_of anthropic_projection native ≡ values
values_of-anthropic_usage [] h = cc h
values_of-anthropic_usage (a ∷ []) h = cc h
values_of-anthropic_usage (a ∷ b ∷ []) h = cc h
values_of-anthropic_usage (a ∷ b ∷ c ∷ []) h = cc h
values_of-anthropic_usage (a ∷ b ∷ c ∷ d ∷ []) h = cc h
values_of-anthropic_usage (a ∷ b ∷ c ∷ d ∷ e ∷ []) h = cc h
values_of-anthropic_usage (a ∷ b ∷ c ∷ d ∷ e ∷ f ∷ []) h = cc h
values_of-anthropic_usage (a ∷ b ∷ c ∷ d ∷ e ∷ f ∷ g ∷ []) h = ground arith
values_of-anthropic_usage (a ∷ b ∷ c ∷ d ∷ e ∷ f ∷ g ∷ x ∷ rest) h = ground arith

pub values_of-open_ai_usage :
    (values : List (Option ℤ)) {native : OpenAiUsage}
    → open_ai_usage values ≡ ok native
    → values_of open_ai_projection native ≡ values
values_of-open_ai_usage [] h = cc h
values_of-open_ai_usage (a ∷ []) h = cc h
values_of-open_ai_usage (a ∷ b ∷ []) h = cc h
values_of-open_ai_usage (a ∷ b ∷ c ∷ []) h = cc h
values_of-open_ai_usage (a ∷ b ∷ c ∷ d ∷ []) h = cc h
values_of-open_ai_usage (a ∷ b ∷ c ∷ d ∷ e ∷ []) h = cc h
values_of-open_ai_usage (a ∷ b ∷ c ∷ d ∷ e ∷ f ∷ []) h = ground arith
values_of-open_ai_usage (a ∷ b ∷ c ∷ d ∷ e ∷ f ∷ x ∷ rest) h = ground arith
