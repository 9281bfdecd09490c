-- ===== src/Examples/Shims.antt =====
-- A Messages stream through the Usage meter, two events of one item through the stabilizer, and an
-- overrun hook (internal/shim/usage_anthropic.go, responses_item_id.go and monitor.go).
use copilotd.Prelude.{
  ◌≤◌, ◌≡◌, refl, List, [], ◌∷◌, ◌++◌, Option, none, some, true, false, Bytes, codes, equal, ℤ, pos,
  if◌then◌else◌, ap,
}
use mathlib.Core.Option.{some-injective}
use mathlib.Core.Path.{subst}
use copilotd.Shim.Json.{Json, Object, member, required_nonempty_string, trim_left}
use copilotd.Shim.UsageMeter.{new_recorder}
use copilotd.Shim.UsageMeter.Anthropic.{
  new_meter, no_candidate, parse_event, parse_start, decode_optional_counts,
}
use copilotd.Shim.UsageMeter.Anthropic.Recorded.{
  observe_message, observe_malformed, observe, done, delta, with_message,
}
use copilotd.Shim.UsageMeter.Anthropic.Counts.{last_reports}
use copilotd.Shim.UsageMeter.Numbered.{
  calls-IsNumbered, IsNumbered, Call, body, event, anthropic_calls, open_ai_calls,
}
use copilotd.Shim.ItemIds.{
  Ids, parse_payload, ids_of, is_turn_terminal, decode_raw_int, decode_raw_string,
  optional_raw_string, rewrite, pinned_at,
}
use copilotd.Shim.ItemIds.Pinned.{IsObject, ShowsOnly}
use copilotd.Shim.ItemIds.Stable.{rewrite-stable, IsEvent, pins_after, Continues}
use copilotd.Shim.Watchdog.{
  Watchdog, new_watchdog, Reachable, start, next, begins, claims, publishes, finishes, writes,
  returned, begin, claim, publish, finish, write_ending,
}
use copilotd.Shim.Watchdog.Paired.{Reachable-Paired, Paired, crossings}

-- A codec that knows these texts, and takes every other text for a string of itself.
abbrev documents : List (Bytes × Object)
documents =
    (codes "start", (codes "type", codes "message_start") ∷ (codes "message", codes "message") ∷ [])
    ∷ (
      codes "message",
      (codes "id", codes "msg")
          ∷ (codes "model", codes "claude")
          ∷ (codes "usage", codes "first")
          ∷ [],
    )
    ∷ (codes "first", (codes "input_tokens", codes "3") ∷ (codes "output_tokens", codes "1") ∷ [])
    ∷ (codes "delta", (codes "type", codes "message_delta") ∷ (codes "usage", codes "second") ∷ [])
    ∷ (codes "second", (codes "output_tokens", codes "5") ∷ [])
    ∷ (codes "stop", (codes "type", codes "message_stop") ∷ [])
    ∷ (codes "added", (codes "output_index", codes "0") ∷ (codes "item", codes "item") ∷ [])
    ∷ (codes "item", (codes "id", codes "\"a\"") ∷ [])
    ∷ (codes "text", (codes "output_index", codes "0") ∷ (codes "item_id", codes "\"b\"") ∷ [])
    ∷ []

abbrev find : List (Bytes × Object) → Bytes → Option Object
find [] raw = none
find ((text, object) ∷ rest) raw =
    let later = find rest raw in if equal text raw then some object else later

abbrev codec : Json
codec = record {
  unmarshal_object = find documents;
  unmarshal_string = λ raw. some (some raw);
  unmarshal_int = λ raw. some (pos 0);
  unmarshal_array = λ raw. none;
  members = find documents;
  unquote = λ raw. some raw;
  marshal_string = λ value. value;
  valid_utf8 = λ raw. true;
  sort_strings = λ keys. keys;
}

abbrev start_event : Object
start_event = (codes "type", codes "message_start") ∷ (codes "message", codes "message") ∷ []

abbrev delta_event : Object
delta_event = (codes "type", codes "message_delta") ∷ (codes "usage", codes "second") ∷ []

abbrev stop_event : Object
stop_event = (codes "type", codes "message_stop") ∷ []

abbrev first_counts : List (Option ℤ)
first_counts = some (pos 3) ∷ some (pos 1) ∷ none ∷ none ∷ none ∷ none ∷ none ∷ []

abbrev second_counts : List (Option ℤ)
second_counts = none ∷ some (pos 5) ∷ none ∷ none ∷ none ∷ none ∷ none ∷ []

parse_event_start :
    parse_event codec (codes "message_start") (some (codes "start")) ≡ some start_event
unfolding parse_event required_nonempty_string member equal
parse_event_start = refl

parse_event_delta :
    parse_event codec (codes "message_delta") (some (codes "delta")) ≡ some delta_event
unfolding parse_event required_nonempty_string member equal
parse_event_delta = refl

parse_event_stop : parse_event codec (codes "message_stop") (some (codes "stop")) ≡ some stop_event
unfolding parse_event required_nonempty_string member equal
parse_event_stop = refl

parse_start_first : parse_start codec start_event ≡ some (codes "msg", codes "claude", first_counts)
unfolding parse_start
parse_start_first = refl

decode_optional_counts_second : decode_optional_counts codec delta_event ≡ some second_counts
unfolding decode_optional_counts
decode_optional_counts_second = refl

observe_message_example :
    observe codec
      ((codes "message_start", some (codes "start"))
          ∷ ((codes "message_delta", some (codes "delta")) ∷ [])
        ++ (codes "message_stop", some (codes "stop")) ∷ [])
      (new_meter (codes "r1"))
    ≡ record {
      recorder =
          with_message codec
            (codes "msg")
            (codes "claude")
            (last_reports (first_counts ∷ second_counts ∷ []))
            (new_recorder (codes "r1"));
      accumulator = no_candidate false;
    }
observe_message_example =
    observe_message codec (some (codes "start")) (some (codes "stop")) (new_meter (codes "r1")) refl
      refl parse_event_start parse_start_first
      (delta parse_event_delta decode_optional_counts_second done) parse_event_stop

parse_event_unknown : parse_event codec (codes "message_delta") (some (codes "junk")) ≡ none
unfolding parse_event equal
parse_event_unknown = refl

observe_malformed_example :
    (observe codec
      ((codes "message_delta", some (codes "junk"))
        ∷ (codes "message_stop", some (codes "stop"))
        ∷ [])
      (new_meter (codes "r1"))).recorder
    ≡ new_recorder (codes "r1")
observe_malformed_example =
    observe_malformed codec (codes "message_delta") (some (codes "junk"))
      ((codes "message_stop", some (codes "stop")) ∷ []) (new_meter (codes "r1"))
      parse_event_unknown

abbrev two_calls : List (Call codec)
two_calls =
    body (codes "message")
    ∷ event (record { kind = codes "response.completed"; raw = codes "data: {}\n\n" })
    ∷ []

calls-IsNumbered_example :
    IsNumbered (anthropic_calls codec two_calls (new_meter (codes "r1"))).recorder
    × IsNumbered (open_ai_calls codec two_calls (new_recorder (codes "r1")))
calls-IsNumbered_example = calls-IsNumbered codec two_calls (codes "r1")

abbrev added_ids : Ids
added_ids = record {
  item = (codes "id", codes "\"a\"") ∷ [];
  item_id = some (codes "\"a\"");
  top_id = none;
}

abbrev text_ids : Ids
text_ids = record { item = []; item_id = none; top_id = some (codes "\"b\"") }

added-IsEvent : IsEvent codec (codes "added") (pos 0) added_ids
unfolding parse_payload ids_of decode_raw_int member optional_raw_string decode_raw_string trim_left
    equal
added-IsEvent = record {
  top = (codes "output_index", codes "0") ∷ (codes "item", codes "item") ∷ [];
  kind = [];
  index = codes "0";
  parsed = refl;
  placed = refl;
  decoded = refl;
  read = refl;
}

text-IsEvent : IsEvent codec (codes "text") (pos 0) text_ids
unfolding parse_payload ids_of decode_raw_int member optional_raw_string decode_raw_string trim_left
    equal
text-IsEvent = record {
  top = (codes "output_index", codes "0") ∷ (codes "item_id", codes "\"b\"") ∷ [];
  kind = [];
  index = codes "0";
  parsed = refl;
  placed = refl;
  decoded = refl;
  read = refl;
}

added-Continues : Continues codec (codes "added")
unfolding parse_payload member is_turn_terminal equal optional_raw_string
added-Continues top kind h =
    subst (λ k. is_turn_terminal k ≡ false) (ap (λ t. t.1) (some-injective _ _ h)) refl

pinned_at_nothing : pinned_at [] (pos 0) ≡ none
unfolding pinned_at
pinned_at_nothing = refl

rewrite-stable_example :
    (sent_object : Object) × IsObject codec sent_object
      (rewrite codec (codes "text") (pins_after codec (codes "added" ∷ []) [])).0
    × ShowsOnly codec (codes "\"a\"") sent_object
rewrite-stable_example =
    rewrite-stable codec (codes "added") [] (codes "text") (pos 0) [] added-IsEvent refl
      pinned_at_nothing (added-Continues, tt) text-IsEvent

-- The second event is sent with the first one's id in place of its own.
rewrite_text :
    (rewrite codec (codes "text") ((pos 0, codes "\"a\"") ∷ [])).0
    ≡ codes "{output_index:0,item_id:\"a\"}"
unfolding rewrite
rewrite_text = refl

-- A hook that returns after nine nanoseconds, four of them over the threshold.
abbrev overrun : Watchdog
overrun = write_ending (
    finish returned 9
      (publish (claim 5 6 (begin (codes "meter") (codes "event_transform") 0 new_watchdog).0)))

overrun-Reachable : Reachable 5 1 overrun
unfolding begin claim publish finish write_ending
overrun-Reachable =
    next
      (next
        (next (next (begins (codes "meter") (codes "event_transform") 0 start refl) (claims 6 refl))
          publishes)
        (finishes returned 9 (λ h. cc h)))
      (writes refl)

Reachable-Paired_example :
    Paired overrun.log × (overrun.count ≡ crossings overrun.log) × (overrun.count ≤ 1)
Reachable-Paired_example = Reachable-Paired {threshold = 5} {n = 1} overrun overrun-Reachable
