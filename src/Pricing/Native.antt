-- ===== src/Pricing/Native.antt =====
-- internal/usage/usage.go: the two Surface-native records of token counts. A count is an int64, an
-- optional one a pointer.
use copilotd.Prelude.{Option, ℤ}

pub record AnthropicUsage : Type 0 where
  pub input_tokens : ℤ
  pub output_tokens : ℤ
  pub cache_creation_input_tokens : Option ℤ
  pub cache_read_input_tokens : Option ℤ
  pub ephemeral_5m_input_tokens : Option ℤ
  pub ephemeral_1h_input_tokens : Option ℤ
  pub thinking_tokens : Option ℤ

pub record OpenAiUsage : Type 0 where
  pub input_tokens : ℤ
  pub output_tokens : ℤ
  pub cached_tokens : Option ℤ
  pub cache_write_tokens : Option ℤ
  pub reasoning_tokens : Option ℤ
  pub total_tokens : Option ℤ
