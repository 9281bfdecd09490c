-- ===== src/Examples/Streams.antt =====
-- Streams of two frames through a pump (internal/sse/pump.go) and through a chain of two instances
-- (internal/shim/shim.go).
use copilotd.Prelude.{◌≡◌, ℕ, ◌+◌, List, [], ◌∷◌, none, some, true, false, Bytes, codes, equal}
use copilotd.Sse.Frame.{Frame}
use copilotd.Sse.Pump.{
  Policy, Transformer, Round, got, eof, reads_ready, keepalive_tick, nothing, pump, initial,
}
use copilotd.Sse.Pump.Wire.{Holds}
use copilotd.Sse.Pump.NoDoubleUp.{pump_ends_once}
use copilotd.Shim.Chain.{Instance, stream_adapter}
use copilotd.Shim.Chain.Onion.{stream_adapter_faithful, emitted}
use copilotd.Shim.Chain.Piped.{piped, emitted-piped}

abbrev until_done : Policy
until_done = record { terminal = λ kind. equal kind (codes "done"); idle_timeout = true }

abbrev copying : Transformer ℕ
copying = record { transform = λ n f. (some (f ∷ []), n + 1); finalize = λ n. (some [], n) }

abbrev delta : Frame
delta = record { kind = codes "delta"; raw = codes "data: a" }

abbrev done_frame : Frame
done_frame = record { kind = codes "done"; raw = codes "data: b" }

abbrev at_once : Frame → Round
at_once f = record {
  wake = reads_ready (got f);
  cancelled = λ c. false;
  received_at = some 3;
  late_tick = none;
}

abbrev two_rounds : List Round
two_rounds =
    at_once delta
    ∷ record {
      wake = keepalive_tick nothing;
      cancelled = λ c. false;
      received_at = none;
      late_tick = none;
    }
    ∷ record {
      wake = reads_ready eof;
      cancelled = λ c. false;
      received_at = some 5;
      late_tick = none;
    }
    ∷ []

pump_ends_once_example : Holds until_done (pump until_done (some copying) two_rounds (initial 10 0))
pump_ends_once_example = pump_ends_once until_done (some copying) two_rounds 10 0

abbrev idle : Bytes → Instance ℕ ℕ ℕ
idle name = record {
  name = name;
  state = 0;
  request = none;
  prelude = none;
  buffered = none;
  event = none;
  finalizer = none;
  client_message = none;
  server_message = none;
}

-- An instance that adds a frame at the end of the stream.
abbrev closing : Instance ℕ ℕ ℕ
closing = record (idle (codes "closing")) { finalizer = some (λ n. (done_frame ∷ [], n)) }

abbrev doubling : Instance ℕ ℕ ℕ
doubling = record (idle (codes "doubling")) { event = some (λ n f. (f ∷ f ∷ [], n + 1)) }

emitted-piped_example :
    emitted (doubling ∷ closing ∷ []) (delta ∷ delta ∷ [])
    ≡ piped (doubling ∷ closing ∷ []) (delta ∷ delta ∷ [])
emitted-piped_example = emitted-piped (doubling ∷ closing ∷ []) (delta ∷ delta ∷ [])

stream_adapter_faithful_example :
    emitted (idle (codes "a") ∷ doubling ∷ closing ∷ []) (delta ∷ delta ∷ [])
    ≡ (elim (stream_adapter (idle (codes "a") ∷ doubling ∷ closing ∷ [])) [
      | none ↦ delta ∷ delta ∷ []
      | some ys ↦ emitted ys (delta ∷ delta ∷ [])
    ])
stream_adapter_faithful_example =
    stream_adapter_faithful (idle (codes "a") ∷ doubling ∷ closing ∷ []) (delta ∷ delta ∷ [])
