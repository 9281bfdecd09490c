-- ===== src/Shim/UsageMeter/Anthropic.antt =====
-- internal/shim/usage_anthropic.go: the Usage meter of the Messages Surface, whose accumulator gathers
-- one message's counts from the frames of a stream. A count vector always has one place for each
-- declared count, so `apply` never meets an index out of range.
pub mod Counts
pub mod Recorded
use copilotd.Prelude.{
  ℕ, Bool, true, false, not, ◌||◌, List, [], ◌∷◌, ◌++◌, Option, none, some, Bytes, codes, ℤ, equal,
  if◌then◌else◌, Result, ok, err, length, replicate,
}
use copilotd.Prelude.Options.{◌>>=◌}
use copilotd.Pricing.Native.{AnthropicUsage}
use copilotd.Usage.Turn.{Turn, Transport, buffered, sse, anthropic}
use copilotd.Usage.Projection.{anthropic_projection, anthropic_usage}
use copilotd.Sse.Frame.{Frame}
use copilotd.Sse.Data.{data_of}
use copilotd.Shim.Json.{
  Json, Object, optional_json_object, required_json_object, required_nonempty_string,
}
use copilotd.Shim.UsageMeter.{
  Recorder, new_recorder, record_turn, observe_request, decode_native_counts,
}

pub record Accumulator : Type 0 where
  pub active : Bool
  pub poisoned : Bool
  pub message_id : Bytes
  pub model : Bytes
  pub counts : List (Option ℤ)

pub record Meter : Type 0 where
  pub recorder : Recorder
  pub accumulator : Accumulator

abbrev pub no_candidate : Bool → Accumulator
no_candidate poisoned = record {
  active = false;
  poisoned = poisoned;
  message_id = [];
  model = [];
  counts = [];
}

-- `newAnthropicUsageMeter`.
abbrev pub new_meter : Bytes → Meter
new_meter request_id = record {
  recorder = new_recorder request_id;
  accumulator = no_candidate false;
}

abbrev latest : Option ℤ → Option ℤ → Option ℤ
latest old none = old
latest old (some value) = some value

-- `apply`: a later report replaces an earlier one.
abbrev pub apply : List (Option ℤ) → List (Option ℤ) → List (Option ℤ)
apply [] update = []
apply (old ∷ counts) [] = old ∷ counts
apply (old ∷ counts) (value ∷ update) = latest old value ∷ apply counts update

abbrev pub poison : Meter → Meter
poison m = record m { accumulator = record (m.accumulator) { poisoned = true } }

abbrev pub turn_for : Bytes → Bytes → Transport → AnthropicUsage → Turn
turn_for id model transport native = record {
  request_id = [];
  response_id = id;
  model = model;
  requested_model = none;
  service_tier = none;
  transport = transport;
  turn_index = 0;
  native = anthropic native;
}

-- `clearCandidate`.
abbrev pub clear_candidate : Meter → Meter
clear_candidate m = record m { accumulator = no_candidate m.accumulator.poisoned }

abbrev pub record_candidate : Accumulator → Recorder → Recorder
record_candidate a r = elim (anthropic_usage a.counts) [
  | err reason ↦ r
  | ok native ↦ record_turn (turn_for a.message_id a.model sse native) r
]

unfoldable pub observe_stop : Meter → Meter
unfolding record_turn
observe_stop m = clear_candidate (
    if m.accumulator.active
    then record m { recorder = record_candidate m.accumulator m.recorder }
    else m)

abbrev pub start_candidate : Bytes → Bytes → List (Option ℤ) → Meter → Meter
start_candidate id model counts m = record m {
  accumulator = record (m.accumulator) {
    active = true;
    message_id = id;
    model = model;
    counts = apply (replicate (length anthropic_projection) none) counts;
  };
}

unfoldable pub update_candidate : List (Option ℤ) → Meter → Meter
update_candidate counts m =
    if m.accumulator.active
    then record m {
      accumulator = record (m.accumulator) { counts = apply m.accumulator.counts counts };
    }
    else m

module _ (json : Json) where
  -- `decodeOptionalAnthropicCounts`.
  unfoldable pub decode_optional_counts : Object → Option (List (Option ℤ))
  unfolding optional_json_object decode_native_counts
  decode_optional_counts object = elim (optional_json_object json object (codes "usage")) [
    | none ↦ none
    | some none ↦ some []
    | some (some usage_object) ↦ decode_native_counts json anthropic_projection usage_object
  ]

  -- What a `message_start` reports, where all of it is valid.
  unfoldable pub parse_start : Object → Option (Bytes × Bytes × List (Option ℤ))
  unfolding decode_optional_counts required_json_object required_nonempty_string
  parse_start event = do
    message ← required_json_object json event (codes "message")
    id ← required_nonempty_string json message (codes "id")
    model ← required_nonempty_string json message (codes "model")
    counts ← decode_optional_counts message
    some (id, model, counts)

  unfoldable pub observe_start : Object → Meter → Meter
  unfolding parse_start
  observe_start event m = if m.accumulator.active then poison m else elim (parse_start event) [
    | none ↦ poison m
    | some (id, model, counts) ↦ start_candidate id model counts m
  ]

  unfoldable pub observe_delta : Object → Meter → Meter
  unfolding decode_optional_counts update_candidate
  observe_delta event m = elim (decode_optional_counts event) [
    | none ↦ poison m
    | some counts ↦ update_candidate counts m
  ]

  -- The switch on the advisory type, which is one of the four.
  unfoldable pub dispatch : Bytes → Object → Meter → Meter
  unfolding observe_start observe_delta observe_stop equal
  dispatch kind event m =
      if equal kind (codes "message_start")
      then observe_start event m
      else if equal kind (codes "message_delta")
      then observe_delta event m
      else if equal kind (codes "message_stop")
      then observe_stop m
      else if equal kind (codes "error")
      then poison m
      else m

  -- The event's object, if its type is the advisory one.
  unfoldable pub parse_event : Bytes → Option Bytes → Option Object
  unfolding required_nonempty_string equal
  parse_event kind payload = do
    raw ← payload
    event ← json.unmarshal_object raw
    decoded ← required_nonempty_string json event (codes "type")
    if equal decoded kind then some event else none

  -- `observeEvent`; `none` is an absent payload.
  unfoldable pub observe_event : Bytes → Option Bytes → Meter → Meter
  unfolding dispatch parse_event
  observe_event kind payload m =
      if m.accumulator.poisoned
      then m
      else elim (parse_event kind payload) [ none ↦ poison m | some event ↦ dispatch kind event m ]

  unfoldable pub is_lifecycle : Bytes → Bool
  unfolding equal
  is_lifecycle kind =
      equal kind (codes "message_start")
      || equal kind (codes "message_delta")
      || equal kind (codes "message_stop")
      || equal kind (codes "error")

  -- `TransformEvent`.
  unfoldable pub transform_event : Frame → Meter → List Frame × Meter
  unfolding observe_event is_lifecycle data_of
  transform_event f m =
      (f ∷ [], if is_lifecycle f.kind then observe_event f.kind (data_of f) m else m)

  -- `parseAnthropicMessage`.
  unfoldable pub parse_message : Bytes → Option (Bytes × Bytes × AnthropicUsage)
  unfolding required_json_object required_nonempty_string decode_native_counts equal
  parse_message raw = do
    object ← json.unmarshal_object raw
    kind ← required_nonempty_string json object (codes "type")
    message ← (if equal kind (codes "message") then some object else none)
    id ← required_nonempty_string json message (codes "id")
    model ← required_nonempty_string json message (codes "model")
    stop_reason ← required_nonempty_string json message (codes "stop_reason")
    usage_object ← required_json_object json message (codes "usage")
    counts ← decode_native_counts json anthropic_projection usage_object
    native ← elim (anthropic_usage counts) [ err reason ↦ none | ok native ↦ some native ]
    some (id, model, native)

  -- `TransformBuffered`, which leaves the body as it is.
  unfoldable pub transform_buffered : Bytes → Meter → Bytes × Meter
  unfolding parse_message record_turn
  transform_buffered body m = (
    body,
    elim (parse_message body) [
      | none ↦ m
      | some (id, model, native) ↦ record m {
        recorder = record_turn (turn_for id model buffered native) m.recorder;
      }
    ],
  )

  -- `TransformRequest`.
  unfoldable pub transform_request : Bytes → Meter → Meter
  unfolding observe_request
  transform_request body m = record m { recorder = observe_request json body m.recorder }
