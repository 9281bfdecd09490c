-- ===== src/Shim/UsageMeter/OpenAi.antt =====
-- internal/shim/usage_openai.go: the Usage meter of the Responses Surface, which records each
-- self-contained completed response that it sees.
use copilotd.Prelude.{
  Bool, true, List, [], ◌∷◌, Option, none, some, Bytes, codes, equal, ok, err, if◌then◌else◌,
}
use copilotd.Prelude.Options.{◌>>=◌}
use copilotd.Usage.Turn.{Turn, Transport, buffered, sse, websocket, open_ai}
use copilotd.Usage.Projection.{open_ai_projection, open_ai_usage}
use copilotd.Sse.Frame.{Frame}
use copilotd.Sse.Data.{data_of}
use copilotd.Shim.Json.{
  Json, Object, member, put, is_json_null, trim_space, trim_left, required_json_object,
  required_nonempty_string,
}
use copilotd.Shim.UsageMeter.{Recorder, record_turn, decode_native_counts}

-- The map that the traversal fills: the last of equal keys wins.
unfoldable pub last_wins : Object → Object → Object
unfolding put
last_wins [] object = object
last_wins ((key, value) ∷ rest) object = last_wins rest (put object key value)

-- The values of the key `service_tier`, in order.
unfoldable pub tiers : Object → List Bytes
unfolding equal
tiers [] = []
tiers ((key, value) ∷ rest) =
    let later = tiers rest in if equal key (codes "service_tier") then value ∷ later else later

module _ (json : Json) where
  -- Exactly one occurrence is evidence, if it is a string.
  abbrev tier_of : List Bytes → Option Bytes
  unfolding trim_left
  tier_of [] = none
  tier_of (raw ∷ []) = json.unquote (trim_space raw)
  tier_of (raw ∷ other ∷ rest) = none

  -- `decodeOpenAIResponseObject`.
  unfoldable pub decode_response_object : Bytes → Option (Object × Option Bytes)
  unfolding last_wins tiers tier_of
  decode_response_object raw = do
    found ← json.members raw
    some (last_wins found [], tier_of (tiers found))

  -- `parseOpenAIResponse`, less the transport.
  unfoldable pub parse_response : Bytes → Transport → Option Turn
  unfolding decode_response_object required_nonempty_string required_json_object
      decode_native_counts equal
  parse_response raw transport = do
    decoded ← decode_response_object raw
    id ← required_nonempty_string json decoded.0 (codes "id")
    model ← required_nonempty_string json decoded.0 (codes "model")
    status ← required_nonempty_string json decoded.0 (codes "status")
    completed ← (if equal status (codes "completed") then some decoded else none)
    usage_object ← required_json_object json completed.0 (codes "usage")
    counts ← decode_native_counts json open_ai_projection usage_object
    native ← elim (open_ai_usage counts) [ err reason ↦ none | ok native ↦ some native ]
    some (record {
      request_id = [];
      response_id = id;
      model = model;
      requested_model = none;
      service_tier = decoded.1;
      transport = transport;
      turn_index = 0;
      native = open_ai native;
    })

  -- `observeResponse`.
  unfoldable pub observe_response : Bytes → Transport → Recorder → Recorder
  unfolding parse_response record_turn
  observe_response raw transport r = elim (parse_response raw transport) [
    | none ↦ r
    | some turn ↦ record_turn turn r
  ]

  -- The response within a `response.completed` event.
  unfoldable pub completed_response : Bytes → Option Bytes
  unfolding required_nonempty_string member is_json_null equal
  completed_response raw = do
    object ← json.unmarshal_object raw
    kind ← required_nonempty_string json object (codes "type")
    event ← (if equal kind (codes "response.completed") then some object else none)
    response ← member event (codes "response")
    if is_json_null response then none else some response

  -- `observeResponseCompletedEvent`.
  unfoldable pub observe_completed_event : Bytes → Transport → Recorder → Recorder
  unfolding completed_response observe_response
  observe_completed_event raw transport r = elim (completed_response raw) [
    | none ↦ r
    | some response ↦ observe_response response transport r
  ]

  -- `TransformBuffered`, which leaves the body as it is.
  unfoldable pub transform_buffered : Bytes → Recorder → Bytes × Recorder
  unfolding observe_response
  transform_buffered body r = (body, observe_response body buffered r)

  -- `TransformEvent`, which returns the frame as it is.
  unfoldable pub transform_event : Frame → Recorder → List Frame × Recorder
  unfolding observe_completed_event data_of equal
  transform_event f r = (
    f ∷ [],
    if equal f.kind (codes "response.completed")
        then elim (data_of f) [ none ↦ r | some payload ↦ observe_completed_event payload sse r ]
        else r,
  )

  -- `TransformServerMessage`, which keeps the message and emits it.
  unfoldable pub transform_server_message : Bytes → Recorder → (Bytes × Bool) × Recorder
  unfolding observe_completed_event
  transform_server_message message r =
      ((message, true), observe_completed_event message websocket r)
