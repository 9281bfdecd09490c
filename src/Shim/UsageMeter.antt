-- ===== src/Shim/UsageMeter.antt =====
-- internal/shim/usage_turn_recorder.go, usage_native_counts.go and usage_openai.go: the Usage meter's
-- recorder, its reading of counts, and the meter of the OpenAI Surface. The sink is the list of the
-- Turns handed to it; integers beyond int64 are no turn index.
pub mod Anthropic
pub mod OpenAi
pub mod Numbered
use copilotd.Prelude.{
  ℕ, zero, suc, length, Bool, true, false, not, List, [], ◌∷◌, ◌++◌, Option, none, some, Bytes,
  codes, ℤ, equal, if◌then◌else◌, Result, ok, err, ◌==◌,
}
use copilotd.Usage.Turn.{Turn, Transport, buffered, sse, websocket, Usage, open_ai}
use copilotd.Usage.Projection.{NativeCount, usage_of, open_ai_usage, open_ai_projection}
use copilotd.Shim.Json.{
  Json, Object, member, put, is_json_null, optional_json_object, required_json_object,
  required_nonempty_string, optional_nonnegative_int64, trim_space,
}

pub record Recorder : Type 0 where
  pub request_id : Bytes
  pub requested_model : Option Bytes
  pub turn_index : ℕ
  pub sink : List Turn

-- `newTurnRecorder`.
abbrev pub new_recorder : Bytes → Recorder
new_recorder request_id = record {
  request_id = request_id;
  requested_model = none;
  turn_index = 0;
  sink = [];
}

abbrev attributed : Transport → Option Bytes → Option Bytes
attributed websocket model = none
attributed buffered model = model
attributed sse model = model

-- `turnRecorder.record`.
unfoldable pub record_turn : Turn → Recorder → Recorder
record_turn turn r = record r {
  turn_index = suc r.turn_index;
  sink =
      r.sink
      ++ record turn {
        request_id = r.request_id;
        requested_model = attributed turn.transport r.requested_model;
        turn_index = r.turn_index;
      }
        ∷ [];
}

module _ (json : Json) where
  -- The members of `requestedModelFrom`'s loop; the flag is `seen`.
  unfoldable pub model_member : Object → Bool → Option Bytes → Option Bytes
  unfolding equal
  model_member [] seen model = model
  model_member ((key, value) ∷ rest) seen model =
      let skipped = model_member rest seen model in
      if not (equal key (codes "model"))
      then skipped
      else if seen
      then none
      else elim (json.unmarshal_string value) [
        | none ↦ none
        | some decoded ↦ model_member rest true decoded
      ]

  -- `requestedModelFrom`.
  unfoldable pub requested_model_from : Bytes → Option Bytes
  unfolding model_member
  requested_model_from body =
      if not (json.valid_utf8 body)
      then none
      else elim (json.members body) [ none ↦ none | some found ↦ model_member found false none ]

  unfoldable pub observe_request : Bytes → Recorder → Recorder
  unfolding requested_model_from
  observe_request body r = record r { requested_model = requested_model_from body }

  -- A count's path is cut at each dot: the containers, and the count's key in the last of them.
  unfoldable pub cut_dot : Bytes → Option (Bytes × Bytes)
  cut_dot [] = none
  cut_dot (c ∷ rest) =
      let later = cut_dot rest in
      if c == b'.'
      then some ([], rest)
      else elim later [ none ↦ none | some (container, path) ↦ some (c ∷ container, path) ]

  -- `decodeNativeCount`, which goes round once for each dot: the path's length is fuel enough.
  unfoldable pub decode_native_count_fuel : ℕ → Object → Bytes → Option (Option ℤ)
  unfolding cut_dot optional_nonnegative_int64 optional_json_object
  decode_native_count_fuel zero object path = optional_nonnegative_int64 object path
  decode_native_count_fuel (suc fuel) object path = elim (cut_dot path) [
    | none ↦ optional_nonnegative_int64 object path
    | some (container, rest) ↦ elim (optional_json_object json object container) [
      | none ↦ none
      | some none ↦ some none
      | some (some details) ↦ decode_native_count_fuel fuel details rest
    ]
  ]

  abbrev pub decode_native_count : Object → Bytes → Option (Option ℤ)
  decode_native_count object path = decode_native_count_fuel (length path) object path

  -- `decodeNativeCounts`.
  unfoldable pub decode_native_counts :
      {U : Type 0} → List (NativeCount U) → Object → Option (List (Option ℤ))
  unfolding decode_native_count_fuel
  decode_native_counts [] object = some []
  decode_native_counts (c ∷ counts) object =
      let later = decode_native_counts counts object in
      elim (decode_native_count object c.path) [
        | none ↦ none
        | some value ↦ elim later [ none ↦ none | some values ↦ some (value ∷ values) ]
      ]
