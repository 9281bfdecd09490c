-- ===== src/Shim/UsageMeter/Anthropic/Recorded.antt =====
-- What the Messages meter records of a stream of lifecycle events.
use copilotd.Prelude.{
  Bool, true, false, List, [], ◌∷◌, ◌++◌, Option, none, some, Bytes, codes, ℤ, equal, ok, err, ◌≡◌,
  refl, ap, ◌∙◌, if◌then◌else◌, Bool-cases, inl, inr,
}
use copilotd.Usage.Turn.{sse}
use copilotd.Usage.Projection.{anthropic_usage}
use copilotd.Shim.Json.{Json, Object}
use copilotd.Shim.UsageMeter.{Recorder, record_turn}
use copilotd.Shim.UsageMeter.Anthropic.{
  Meter, poison, no_candidate, record_candidate, apply, observe_event, observe_start, observe_delta,
  observe_stop, dispatch, parse_event, parse_start, decode_optional_counts, update_candidate,
  turn_for, start_candidate, clear_candidate,
}
use copilotd.Shim.UsageMeter.Anthropic.Counts.{
  gather, message_counts, last_reports, message_counts-last_reports,
}

-- The pump's events: an advisory type, and the payload or its absence.
abbrev pub Event : Type 0
Event = Bytes × Option Bytes

module _ (json : Json) where
  abbrev pub observe : List Event → Meter → Meter
  observe [] m = m
  observe ((kind, payload) ∷ later) m = observe later (observe_event json kind payload m)

  -- Valid `message_delta` events and the counts that they report.
  pub data Deltas : List Event → List (List (Option ℤ)) → Type 0 where
    done : Deltas [] []
    delta :
        {payload : Option Bytes} {event : Object} {counts : List (Option ℤ)} {later : List Event}
        {updates : List (List (Option ℤ))}
        → parse_event json (codes "message_delta") payload ≡ some event
        → decode_optional_counts json event ≡ some counts
        → Deltas later updates
        → Deltas ((codes "message_delta", payload) ∷ later) (counts ∷ updates)

  observed : Bytes → Option Bytes → Meter → Bool → Meter
  unfolding dispatch parse_event
  observed kind payload m poisoned = if poisoned then m else elim (parse_event json kind payload) [
    | none ↦ poison m
    | some event ↦ dispatch json kind event m
  ]

  observe_event_lem :
      (kind : Bytes) (payload : Option Bytes) (m : Meter)
      → observe_event json kind payload m ≡ observed kind payload m m.accumulator.poisoned
  unfolding observe_event observed
  observe_event_lem kind payload m = refl

  observe_event-poisoned :
      (kind : Bytes) (payload : Option Bytes) (m : Meter)
      → m.accumulator.poisoned ≡ true
      → observe_event json kind payload m ≡ m
  unfolding observed
  observe_event-poisoned kind payload m h =
      observe_event_lem kind payload m ∙ ap (observed kind payload m) h

  observe_event-malformed :
      (kind : Bytes) (payload : Option Bytes) (m : Meter)
      → m.accumulator.poisoned ≡ false
      → parse_event json kind payload ≡ none
      → observe_event json kind payload m ≡ poison m
  unfolding observed
  observe_event-malformed kind payload m h e =
      observe_event_lem kind payload m
      ∙ ap (observed kind payload m) h
      ∙ ap (λ t. elim t [ none ↦ poison m | some event ↦ dispatch json kind event m ]) e

  observe_event-parsed :
      (kind : Bytes) (payload : Option Bytes) (m : Meter) {event : Object}
      → m.accumulator.poisoned ≡ false
      → parse_event json kind payload ≡ some event
      → observe_event json kind payload m ≡ dispatch json kind event m
  unfolding observed
  observe_event-parsed kind payload m h e =
      observe_event_lem kind payload m
      ∙ ap (observed kind payload m) h
      ∙ ap (λ t. elim t [ none ↦ poison m | some event ↦ dispatch json kind event m ]) e

  observe_poisoned :
      (events : List Event) (m : Meter) → m.accumulator.poisoned ≡ true → observe events m ≡ m
  observe_poisoned [] m h = refl
  observe_poisoned ((kind, payload) ∷ later) m h =
      ap (observe later) (observe_event-poisoned kind payload m h) ∙ observe_poisoned later m h

  -- Takes a meter, an event that does not parse, and any events after it. The Turns recorded are those
  -- recorded before.
  pub observe_malformed :
      (kind : Bytes) (payload : Option Bytes) (later : List Event) (m : Meter)
      → parse_event json kind payload ≡ none
      → (observe ((kind, payload) ∷ later) m).recorder ≡ m.recorder
  observe_malformed kind payload later m h = elim (Bool-cases m.accumulator.poisoned) [
    | inl e ↦ ap (λ t. t.recorder) (observe_poisoned ((kind, payload) ∷ later) m e)
    | inr e ↦
        ap (λ t. (observe later t).recorder) (observe_event-malformed kind payload m e h)
        ∙ ap (λ t. t.recorder) (observe_poisoned later (poison m) refl)
  ]

  -- A meter whose candidate has the counts.
  abbrev with_counts : List (Option ℤ) → Meter → Meter
  with_counts counts m = record m { accumulator = record (m.accumulator) { counts = counts } }

  dispatch_delta :
      (event : Object) {update : List (Option ℤ)} (m : Meter)
      → m.accumulator.active ≡ true
      → decode_optional_counts json event ≡ some update
      → dispatch json (codes "message_delta") event m
        ≡ with_counts (apply m.accumulator.counts update) m
  unfolding dispatch observe_delta update_candidate equal
  dispatch_delta event {update} m h e =
      ap (λ t. elim t [ none ↦ poison m | some counts ↦ update_candidate counts m ]) e
      ∙ ap (λ b. if b then with_counts (apply m.accumulator.counts update) m else m) h

  observe_deltas :
      {events : List Event} {updates : List (List (Option ℤ))} (rest : List Event) (m : Meter)
      → Deltas events updates
      → m.accumulator.active ≡ true
      → m.accumulator.poisoned ≡ false
      → observe (events ++ rest) m
        ≡ observe rest (with_counts (gather m.accumulator.counts updates) m)
  observe_deltas rest m done active clean = refl
  observe_deltas rest m
        (delta {payload = payload} {event = event} {counts = counts} {later = later}
          {updates = updates} parsed decoded deltas)
        active clean =
      ap (observe (later ++ rest)) (
        observe_event-parsed (codes "message_delta") payload m clean parsed
        ∙ dispatch_delta event m active decoded)
      ∙ observe_deltas rest (with_counts (apply m.accumulator.counts counts) m) deltas active clean

  dispatch_start :
      (event : Object) {id model : Bytes} {counts : List (Option ℤ)} (m : Meter)
      → m.accumulator.active ≡ false
      → parse_start json event ≡ some (id, model, counts)
      → dispatch json (codes "message_start") event m ≡ start_candidate id model counts m
  unfolding dispatch observe_start equal
  dispatch_start event {id} {model} {counts} m h e =
      ap
        (λ b. if b then poison m else elim (parse_start json event) [
          | none ↦ poison m
          | some (id, model, counts) ↦ start_candidate id model counts m
        ])
        h
      ∙ ap
          (λ t. elim t [
            | none ↦ poison m
            | some (id, model, counts) ↦ start_candidate id model counts m
          ])
          e

  dispatch_stop :
      (event : Object) (m : Meter)
      → m.accumulator.active ≡ true
      → dispatch json (codes "message_stop") event m
        ≡ clear_candidate (record m { recorder = record_candidate m.accumulator m.recorder })
  unfolding dispatch observe_stop equal
  dispatch_stop event m h =
      ap
        (λ b.
          clear_candidate
            (if b then record m { recorder = record_candidate m.accumulator m.recorder } else m))
        h

  -- What one more completed message adds to the recorder.
  abbrev pub with_message : Bytes → Bytes → List (Option ℤ) → Recorder → Recorder
  with_message id model counts r = elim (anthropic_usage counts) [
    | err reason ↦ r
    | ok native ↦ record_turn (turn_for id model sse native) r
  ]

  -- Takes a meter that is neither within a message nor poisoned, a valid `message_start`, valid
  -- `message_delta` events and a valid `message_stop`. The meter hands over one Turn with the id and
  -- the model of the start, whose every count is the last one that the start or a delta reports for
  -- it, or no Turn where a required count is unreported; and it is then neither within a message nor
  -- poisoned.
  pub observe_message :
      (start stop : Option Bytes) {start_event stop_event : Object} {id model : Bytes}
      {first : List (Option ℤ)} {events : List Event} {updates : List (List (Option ℤ))} (m : Meter)
      → m.accumulator.active ≡ false
      → m.accumulator.poisoned ≡ false
      → parse_event json (codes "message_start") start ≡ some start_event
      → parse_start json start_event ≡ some (id, model, first)
      → Deltas events updates
      → parse_event json (codes "message_stop") stop ≡ some stop_event
      → observe ((codes "message_start", start) ∷ events ++ (codes "message_stop", stop) ∷ []) m
        ≡ record {
          recorder = with_message id model (last_reports (first ∷ updates)) m.recorder;
          accumulator = no_candidate false;
        }
  observe_message start stop {start_event = start_event} {stop_event = stop_event} {id = id}
        {model = model} {first = first} {events = events} {updates = updates} m idle clean started
        parsed deltas stopped =
      let begun = start_candidate id model first m in
      let rest = (codes "message_stop", stop) ∷ [] in
      let full = with_counts (message_counts first updates) begun in
      ap (observe (events ++ rest)) (
        observe_event-parsed (codes "message_start") start m clean started
        ∙ dispatch_start start_event m idle parsed)
      ∙ observe_deltas rest begun deltas refl clean
      ∙ observe_event-parsed (codes "message_stop") stop full clean stopped
      ∙ dispatch_stop stop_event full refl
      ∙ ap
          (λ b. record {
            recorder = with_message id model (message_counts first updates) m.recorder;
            accumulator = no_candidate b;
          })
          clean
      ∙ ap
          (λ counts. record {
            recorder = with_message id model counts m.recorder;
            accumulator = no_candidate false;
          })
          (message_counts-last_reports first updates)
