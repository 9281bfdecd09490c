-- ===== src/Usage/Turn.antt =====
-- internal/usage/usage.go, `Turn`, less the time of its submission.
use copilotd.Prelude.{ℕ, Option, Bytes}
use copilotd.Pricing.Native.{AnthropicUsage, OpenAiUsage}

pub data Transport : Type 0 where
  buffered sse websocket : Transport

pub data Usage : Type 0 where
  anthropic : AnthropicUsage → Usage
  open_ai : OpenAiUsage → Usage

pub record Turn : Type 0 where
  pub request_id : Bytes
  pub response_id : Bytes
  pub model : Bytes
  pub requested_model : Option Bytes
  pub service_tier : Option Bytes
  pub transport : Transport
  pub turn_index : ℕ
  pub native : Usage
