-- ===== src/Sse/Frame.antt =====
-- internal/sse/reader.go, `Frame`: one SSE event with its advisory type and its exact bytes.
use copilotd.Prelude.{Bytes}

pub record Frame : Type 0 where
  pub kind : Bytes
  pub raw : Bytes
