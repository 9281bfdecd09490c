-- ===== src/Shim/UsageMeter/Numbered.antt =====
-- The Turns that one meter hands over, across any of its calls.
use copilotd.Prelude.{
  ℕ, zero, suc, Bool, true, false, List, [], ◌∷◌, ◌++◌, Option, none, some, Bytes, codes, equal,
  Result, ok, err, length, length-append, get_elem?, ◌≡◌, refl, sym, ap, ◌∙◌, arith, ◌⊎◌, inl, inr,
  if◌then◌else◌,
}
use mathlib.Core.Option.{some-injective}
use copilotd.Usage.Turn.{Turn, Transport, buffered, sse, websocket}
use copilotd.Pricing.Native.{AnthropicUsage}
use copilotd.Usage.Projection.{anthropic_usage, UsageError}
use copilotd.Sse.Frame.{Frame}
use copilotd.Sse.Data.{data_of}
use copilotd.Shim.Json.{Json, Object}
use copilotd.Shim.UsageMeter.{Recorder, new_recorder, record_turn, observe_request}
use copilotd.Shim.UsageMeter.Anthropic
use copilotd.Shim.UsageMeter.Anthropic.{
  Meter, Accumulator, new_meter, observe_event, observe_start, observe_delta, observe_stop,
  dispatch, parse_event, parse_start, decode_optional_counts, update_candidate, record_candidate,
  parse_message, is_lifecycle, poison, turn_for,
}
use copilotd.Shim.UsageMeter.OpenAi
use copilotd.Shim.UsageMeter.OpenAi.{
  observe_response, observe_completed_event, parse_response, completed_response,
}

-- A recorder that becomes another by the two things done to it.
pub data Evolves : Recorder → Recorder → Type 0 where
  same : {r : Recorder} → Evolves r r
  recorded : {r : Recorder} (turn : Turn) → Evolves r (record_turn turn r)

-- Every Turn handed over has its place for an index and the meter's request id.
pub record IsNumbered (r : Recorder) : Type 0 where
  pub counted : r.turn_index ≡ length r.sink
  pub placed :
      (k : ℕ) (t : Turn)
      → get_elem? r.sink k ≡ some t
      → (t.turn_index ≡ k) × (t.request_id ≡ r.request_id)

get_elem?-snoc :
    {A : Type 0} (xs : List A) (x y : A) (k : ℕ)
    → get_elem? (xs ++ x ∷ []) k ≡ some y
    → (get_elem? xs k ≡ some y) ⊎ ((k ≡ length xs) × (x ≡ y))
get_elem?-snoc [] x y zero h = inr (refl, some-injective _ _ h)
get_elem?-snoc [] x y (suc k) h = cc h
get_elem?-snoc (z ∷ xs) x y zero h = inl h
get_elem?-snoc (z ∷ xs) x y (suc k) h = elim (get_elem?-snoc xs x y k h) [
  | inl e ↦ inl e
  | inr (e, here) ↦ inr (ap suc e, here)
]

record_turn-IsNumbered :
    (turn : Turn) (r : Recorder) → IsNumbered r → IsNumbered (record_turn turn r)
unfolding record_turn
record_turn-IsNumbered turn r p = record {
  counted = omega (arith, p.counted, length-append r.sink (_ ∷ []));
  placed = λ k t h. elim (get_elem?-snoc r.sink _ t k h) [
    | inl e ↦ p.placed k t e
    | inr (e, here) ↦
        (ap (λ t. t.turn_index) (sym here) ∙ p.counted ∙ sym e, ap (λ t. t.request_id) (sym here))
  ];
}

Evolves-IsNumbered : {r r' : Recorder} → Evolves r r' → IsNumbered r → IsNumbered r'
Evolves-IsNumbered same p = p
Evolves-IsNumbered (recorded turn) p = record_turn-IsNumbered turn _ p

new_recorder-IsNumbered : (id : Bytes) → IsNumbered (new_recorder id)
new_recorder-IsNumbered id = record { counted = refl; placed = λ k t h. cc h }

-- Meters whose recorder evolves.
abbrev Steps : Meter → Meter → Type 0
Steps m m' = Evolves m.recorder m'.recorder

module _ {A : Type 0} where
  Evolves-option :
      (o : Option A) (r : Recorder) (f : A → Recorder)
      → ((a : A) → Evolves r (f a))
      → Evolves r (elim o [ none ↦ r | some a ↦ f a ])
  Evolves-option none r f h = same
  Evolves-option (some a) r f h = h a

  Steps-option :
      (o : Option A) (m n : Meter) (f : A → Meter)
      → Steps m n
      → ((a : A) → Steps m (f a))
      → Steps m (elim o [ none ↦ n | some a ↦ f a ])
  Steps-option none m n f k h = k
  Steps-option (some a) m n f k h = h a

Steps-if : (b : Bool) (m n l : Meter) → Steps m n → Steps m l → Steps m (if b then n else l)
Steps-if true m n l h k = h
Steps-if false m n l h k = k

Evolves-if :
    (b : Bool) (r s t : Recorder) → Evolves r s → Evolves r t → Evolves r (if b then s else t)
Evolves-if true r s t h k = h
Evolves-if false r s t h k = k

Evolves-result :
    (found : Result UsageError AnthropicUsage) (r : Recorder) (turn : AnthropicUsage → Turn)
    → Evolves r (elim found [ err reason ↦ r | ok native ↦ record_turn (turn native) r ])
Evolves-result (err reason) r turn = same
Evolves-result (ok native) r turn = recorded (turn native)

record_candidate-Evolves : (a : Accumulator) (r : Recorder) → Evolves r (record_candidate a r)
record_candidate-Evolves a r =
    Evolves-result (anthropic_usage a.counts) r (turn_for a.message_id a.model sse)

observe_stop-Steps : (m : Meter) → Steps m (observe_stop m)
unfolding observe_stop
observe_stop-Steps m =
    Steps-if m.accumulator.active m
      (record m { recorder = record_candidate m.accumulator m.recorder }) m
      (record_candidate-Evolves m.accumulator m.recorder) same

module _ (json : Json) where
  dispatch-Steps :
      (kind : Bytes) (event : Object) (m : Meter) → Steps m (dispatch json kind event m)
  unfolding dispatch observe_start observe_delta update_candidate
  dispatch-Steps kind event m =
      Steps-if (equal kind (codes "message_start")) m _ _
        (Steps-if m.accumulator.active m _ _ same
          (Steps-option (parse_start json event) m _ _ same (λ a. same)))
        (Steps-if (equal kind (codes "message_delta")) m _ _
          (Steps-option (decode_optional_counts json event) m _ _ same
            (λ counts. Steps-if m.accumulator.active m _ _ same same))
          (Steps-if (equal kind (codes "message_stop")) m _ _ (observe_stop-Steps m)
            (Steps-if (equal kind (codes "error")) m _ _ same same)))

  observe_event-Steps :
      (kind : Bytes) (payload : Option Bytes) (m : Meter)
      → Steps m (observe_event json kind payload m)
  unfolding observe_event
  observe_event-Steps kind payload m = Steps-if m.accumulator.poisoned m _ _ same (
      Steps-option (parse_event json kind payload) m _ _ same
        (λ event. dispatch-Steps kind event m))

  transform_event-Steps : (f : Frame) (m : Meter) → Steps m (Anthropic.transform_event json f m).1
  unfolding Anthropic.transform_event
  transform_event-Steps f m =
      Steps-if (is_lifecycle json f.kind) m _ _ (observe_event-Steps f.kind (data_of f) m) same

  transform_buffered-Steps :
      (body : Bytes) (m : Meter) → Steps m (Anthropic.transform_buffered json body m).1
  unfolding Anthropic.transform_buffered
  transform_buffered-Steps body m =
      let turn : Bytes × Bytes × AnthropicUsage → Turn =
        λ found. turn_for found.0 found.1 buffered found.2 in
      Steps-option (parse_message json body) m m
        (λ found. record m { recorder = record_turn (turn found) m.recorder }) same
        (λ found. recorded (turn found))

  observe_response-Evolves :
      (raw : Bytes) (transport : Transport) (r : Recorder)
      → Evolves r (observe_response json raw transport r)
  unfolding observe_response
  observe_response-Evolves raw transport r =
      Evolves-option (parse_response json raw transport) r _ (λ turn. recorded turn)

  observe_completed_event-Evolves :
      (raw : Bytes) (transport : Transport) (r : Recorder)
      → Evolves r (observe_completed_event json raw transport r)
  unfolding observe_completed_event
  observe_completed_event-Evolves raw transport r =
      Evolves-option (completed_response json raw) r _
        (λ response. observe_response-Evolves response transport r)

  open_ai_event-Evolves : (f : Frame) (r : Recorder) → Evolves r (OpenAi.transform_event json f r).1
  unfolding OpenAi.transform_event
  open_ai_event-Evolves f r =
      Evolves-if (equal f.kind (codes "response.completed")) r _ _
        (Evolves-option (data_of f) r _ (λ payload. observe_completed_event-Evolves payload sse r))
        same

  -- A call of a meter: its request hook, a buffered body, a frame, and for OpenAI a server message.
  pub data Call : Type 0 where
    request : Bytes → Call
    body : Bytes → Call
    event : Frame → Call
    message : Bytes → Call

  abbrev pub anthropic_calls : List Call → Meter → Meter
  anthropic_calls [] m = m
  anthropic_calls (request raw ∷ calls) m =
      anthropic_calls calls (Anthropic.transform_request json raw m)
  anthropic_calls (body raw ∷ calls) m =
      anthropic_calls calls (Anthropic.transform_buffered json raw m).1
  anthropic_calls (event f ∷ calls) m = anthropic_calls calls (Anthropic.transform_event json f m).1
  anthropic_calls (message raw ∷ calls) m = anthropic_calls calls m

  abbrev pub open_ai_calls : List Call → Recorder → Recorder
  open_ai_calls [] r = r
  open_ai_calls (request raw ∷ calls) r = open_ai_calls calls (observe_request json raw r)
  open_ai_calls (body raw ∷ calls) r = open_ai_calls calls (OpenAi.transform_buffered json raw r).1
  open_ai_calls (event f ∷ calls) r = open_ai_calls calls (OpenAi.transform_event json f r).1
  open_ai_calls (message raw ∷ calls) r =
      open_ai_calls calls (OpenAi.transform_server_message json raw r).1

  observe_request-IsNumbered :
      (raw : Bytes) (r : Recorder) → IsNumbered r → IsNumbered (observe_request json raw r)
  unfolding observe_request
  observe_request-IsNumbered raw r p = record { counted = p.counted; placed = p.placed }

  anthropic_calls-keeps :
      (calls : List Call) (m : Meter)
      → IsNumbered m.recorder
      → IsNumbered (anthropic_calls calls m).recorder
  unfolding Anthropic.transform_request
  anthropic_calls-keeps [] m p = p
  anthropic_calls-keeps (request raw ∷ calls) m p =
      anthropic_calls-keeps calls (Anthropic.transform_request json raw m)
        (observe_request-IsNumbered raw _ p)
  anthropic_calls-keeps (body raw ∷ calls) m p =
      anthropic_calls-keeps calls _ (Evolves-IsNumbered (transform_buffered-Steps raw m) p)
  anthropic_calls-keeps (event f ∷ calls) m p =
      anthropic_calls-keeps calls _ (Evolves-IsNumbered (transform_event-Steps f m) p)
  anthropic_calls-keeps (message raw ∷ calls) m p = anthropic_calls-keeps calls m p

  open_ai_calls-keeps :
      (calls : List Call) (r : Recorder) → IsNumbered r → IsNumbered (open_ai_calls calls r)
  unfolding OpenAi.transform_buffered OpenAi.transform_server_message
  open_ai_calls-keeps [] r p = p
  open_ai_calls-keeps (request raw ∷ calls) r p =
      open_ai_calls-keeps calls _ (observe_request-IsNumbered raw r p)
  open_ai_calls-keeps (body raw ∷ calls) r p =
      open_ai_calls-keeps calls _ (Evolves-IsNumbered (observe_response-Evolves raw buffered r) p)
  open_ai_calls-keeps (event f ∷ calls) r p =
      open_ai_calls-keeps calls _ (Evolves-IsNumbered (open_ai_event-Evolves f r) p)
  open_ai_calls-keeps (message raw ∷ calls) r p =
      open_ai_calls-keeps calls _
        (Evolves-IsNumbered (observe_completed_event-Evolves raw websocket r) p)

  -- Takes any calls on a new meter of either Surface: its request hook, bodies, frames and server
  -- messages in any order. The Turn handed over at place k has the turn index k and the meter's
  -- request id, and the meter's next index is the number of Turns handed over.
  pub calls-IsNumbered :
      (calls : List Call) (id : Bytes)
      → IsNumbered (anthropic_calls calls (new_meter id)).recorder
        × IsNumbered (open_ai_calls calls (new_recorder id))
  calls-IsNumbered calls id = (
    anthropic_calls-keeps calls (new_meter id) (new_recorder-IsNumbered id),
    open_ai_calls-keeps calls (new_recorder id) (new_recorder-IsNumbered id),
  )
