-- ===== src/Shim/ItemIds.antt =====
-- internal/shim/responses_item_id.go: the stabilizer that gives every event of one output item the id
-- that the item had first. Go's map of pinned ids is a list of pairs in which the first counts.
pub mod Pinned
pub mod Stable
use copilotd.Prelude.{
  ℕ, zero, suc, Bool, true, false, not, ◌||◌, List, [], ◌∷◌, ◌++◌, Option, none, some, Bytes, codes,
  equal, ℤ, pos, equal_ℤ, map, if◌then◌else◌, ◌==◌,
}
use copilotd.Prelude.Options.{◌>>=◌}
use copilotd.Sse.Frame.{Frame}
use copilotd.Sse.Data.{data_of, with_data}
use copilotd.Shim.Json.{Json, Object, member, put, trim_space, trim_left}

abbrev pub Pins : Type 0
Pins = List (ℤ × Bytes)

unfoldable pub pinned_at : Pins → ℤ → Option Bytes
pinned_at [] i = none
pinned_at ((j, id) ∷ rest) i =
    let later = pinned_at rest i in if equal_ℤ j i then some id else later

-- `responsesItemIDRewriteOutcome`, with the rewritten object.
pub data Rewrite : Type 0 where
  unchanged : Rewrite
  changed : Object → Rewrite
  uncertain : Rewrite

-- `isResponsesTurnTerminal`.
unfoldable pub is_turn_terminal : Bytes → Bool
unfolding equal
is_turn_terminal kind =
    equal kind (codes "response.completed")
    || equal kind (codes "response.failed")
    || equal kind (codes "response.incomplete")
    || equal kind (codes "error")

abbrev starts_with : ℕ → Bytes → Bool
starts_with c [] = false
starts_with c (d ∷ rest) = d == c

-- `item.id`, `top.item_id` and the item, all of them optional.
pub record Ids : Type 0 where
  pub item : Object
  pub item_id : Option Bytes
  pub top_id : Option Bytes

module _ (json : Json) where
  -- The members, each behind a comma but the first.
  abbrev members_text : Object → List Bytes → Bytes
  unfolding member
  members_text object [] = []
  members_text object (key ∷ []) =
      json.marshal_string key ++ (b':' ∷ elim (member object key) [ none ↦ [] | some raw ↦ raw ])
  members_text object (key ∷ next ∷ keys) =
      json.marshal_string key
      ++ (b':' ∷ elim (member object key) [ none ↦ [] | some raw ↦ raw ])
      ++ (b',' ∷ members_text object (next ∷ keys))

  unfoldable pub marshal_raw_object : Object → Bytes
  unfolding members_text
  marshal_raw_object object =
      b'{' ∷ members_text object (json.sort_strings (map (λ m. m.0) object)) ++ b'}' ∷ []

  abbrev values_text : List Bytes → Bytes
  values_text [] = []
  values_text (value ∷ []) = value
  values_text (value ∷ next ∷ values) = value ++ b',' ∷ values_text (next ∷ values)

  unfoldable pub marshal_raw_array : List Bytes → Bytes
  marshal_raw_array values = b'[' ∷ values_text values ++ b']' ∷ []

  unfoldable pub decode_raw_string : Bytes → Option Bytes
  unfolding trim_left
  decode_raw_string raw =
      if starts_with b'"' (trim_space raw)
      then elim (json.unmarshal_string (trim_space raw)) [ none ↦ none | some value ↦ value ]
      else none

  unfoldable pub decode_raw_int : Bytes → Option ℤ
  unfolding equal trim_left
  decode_raw_int raw =
      if equal (trim_space raw) [] || equal (trim_space raw) (codes "null")
      then none
      else json.unmarshal_int (trim_space raw)

  abbrev pub present_string : Option Bytes → Option (Option Bytes)
  present_string none = none
  present_string (some value) = some (some value)

  -- `optionalRawString`: `none` is invalid, `some none` absent.
  unfoldable pub optional_raw_string : Object → Bytes → Option (Option Bytes)
  unfolding member decode_raw_string
  optional_raw_string object key = elim (member object key) [
    | none ↦ some none
    | some raw ↦ present_string (decode_raw_string raw)
  ]

  -- The item's object, empty where there is none.
  abbrev pub item_of : Object → Option Object
  item_of top = elim (member top (codes "item")) [
    | none ↦ some []
    | some raw ↦ json.unmarshal_object raw
  ]

  unfoldable pub ids_of : Object → Option Ids
  unfolding optional_raw_string
  ids_of top = do
    item ← item_of top
    item_id ← optional_raw_string item (codes "id")
    top_id ← optional_raw_string top (codes "item_id")
    some (record { item = item; item_id = item_id; top_id = top_id })

  unfoldable pub repin_item : Bytes → Ids → Object → Object × Bool
  unfolding put marshal_raw_object equal
  repin_item pinned ids top = elim ids.item_id [
    | none ↦ (top, false)
    | some id ↦ if equal id pinned then (top, false) else (
      put top (codes "item")
          (marshal_raw_object (put ids.item (codes "id") (json.marshal_string pinned))),
      true,
    )
  ]

  unfoldable pub repin_top : Bytes → Ids → Object → Object × Bool
  unfolding put equal
  repin_top pinned ids top = elim ids.top_id [
    | none ↦ (top, false)
    | some id ↦
        if equal id pinned
        then (top, false)
        else (put top (codes "item_id") (json.marshal_string pinned), true)
  ]

  unfoldable pub repin : Bytes → Ids → Object → Rewrite
  unfolding repin_item repin_top
  repin pinned ids top =
      let first = repin_item pinned ids top in
      let second = repin_top pinned ids first.0 in
      if first.1 || second.1 then changed second.0 else unchanged

  abbrev pub first_id : Option Bytes → Option Bytes → Option Bytes
  first_id (some id) top_id = some id
  first_id none top_id = top_id

  -- `rewritePerItem`.
  unfoldable pub rewrite_per_item : Object → ℤ → Pins → Rewrite × Pins
  unfolding ids_of repin pinned_at
  rewrite_per_item top i pins = elim (ids_of top) [
    | none ↦ (uncertain, pins)
    | some ids ↦ elim (first_id ids.item_id ids.top_id) [
      | none ↦ (unchanged, pins)
      | some id ↦ elim (pinned_at pins i) [
        | none ↦ (unchanged, (i, id) ∷ pins)
        | some pinned ↦ (repin pinned ids top, pins)
      ]
    ]
  ]

  -- `validatedResponsesOutputItem`, for every item or none.
  unfoldable pub validate_items : List Bytes → Option (List (Object × Option Bytes))
  unfolding optional_raw_string
  validate_items [] = some []
  validate_items (raw ∷ output) =
      let later = validate_items output in
      (do
        object ← json.unmarshal_object raw
        id ← optional_raw_string object (codes "id")
        items ← later
        some ((object, id) ∷ items))

  abbrev repin_one : Option Bytes → Object → Option Bytes → Bytes → Bytes × Bool
  unfolding put marshal_raw_object equal
  repin_one none object id raw = (raw, false)
  repin_one (some pinned) object none raw = (raw, false)
  repin_one (some pinned) object (some id) raw =
      if equal id pinned
      then (raw, false)
      else (marshal_raw_object (put object (codes "id") (json.marshal_string pinned)), true)

  -- The loop over the output, from an index on.
  unfoldable pub repin_output :
      Pins → ℕ → List Bytes → List (Object × Option Bytes) → List Bytes × Bool
  unfolding repin_one pinned_at
  repin_output pins i [] items = ([], false)
  repin_output pins i (raw ∷ output) [] = (raw ∷ output, false)
  repin_output pins i (raw ∷ output) ((object, id) ∷ items) =
      let later = repin_output pins (suc i) output items in
      let here = repin_one (pinned_at pins (pos i)) object id raw in
      (here.0 ∷ later.0, here.1 || later.1)

  abbrev with_output : Object → Object → List Bytes × Bool → Rewrite
  unfolding put marshal_raw_object marshal_raw_array
  with_output top response (output, false) = unchanged
  with_output top response (output, true) = changed (
      put top (codes "response")
        (marshal_raw_object (put response (codes "output") (marshal_raw_array output))))

  unfoldable pub rewrite_output : Object → Object → Bytes → Pins → Rewrite
  unfolding validate_items repin_output with_output trim_left
  rewrite_output top response raw pins =
      if not (starts_with b'[' (trim_space raw))
      then uncertain
      else elim (json.unmarshal_array raw) [
        | none ↦ uncertain
        | some [] ↦ unchanged
        | some (first ∷ output) ↦ elim (validate_items (first ∷ output)) [
          | none ↦ uncertain
          | some items ↦ with_output top response (repin_output pins 0 (first ∷ output) items)
        ]
      ]

  -- `rewriteEnvelope`.
  unfoldable pub rewrite_envelope : Object → Pins → Rewrite
  unfolding member rewrite_output
  rewrite_envelope top pins = elim (member top (codes "response")) [
    | none ↦ unchanged
    | some response_raw ↦ elim (json.unmarshal_object response_raw) [
      | none ↦ uncertain
      | some response ↦ elim (member response (codes "output")) [
        | none ↦ unchanged
        | some raw ↦ rewrite_output top response raw pins
      ]
    ]
  ]

  unfoldable pub rewrite_object : Object → Pins → Rewrite × Pins
  unfolding member decode_raw_int rewrite_per_item rewrite_envelope
  rewrite_object top pins = elim (member top (codes "output_index")) [
    | none ↦ (rewrite_envelope top pins, pins)
    | some raw ↦ elim (decode_raw_int raw) [
      | none ↦ (uncertain, pins)
      | some i ↦ rewrite_per_item top i pins
    ]
  ]

  abbrev pub payload_of : Bytes → Rewrite → Bytes
  payload_of payload unchanged = payload
  payload_of payload uncertain = payload
  payload_of payload (changed top) = marshal_raw_object top

  abbrev pub kind_of : Option Bytes → Bytes
  kind_of none = []
  kind_of (some kind) = kind

  -- The payload's object and its event type, where both are valid.
  unfoldable pub parse_payload : Bytes → Option (Object × Bytes)
  unfolding optional_raw_string
  parse_payload payload = do
    top ← json.unmarshal_object payload
    kind ← optional_raw_string top (codes "type")
    some (top, kind_of kind)

  -- `rewrite`.
  unfoldable pub rewrite : Bytes → Pins → Bytes × Pins
  unfolding parse_payload rewrite_object is_turn_terminal marshal_raw_object
  rewrite payload pins = elim (parse_payload payload) [
    | none ↦ (payload, pins)
    | some (top, kind) ↦
        let result = rewrite_object top pins in
        (payload_of payload result.0, if is_turn_terminal kind then [] else result.1)
  ]

  abbrev reframe : Frame → Bytes → Bytes → Frame
  unfolding with_data equal
  reframe f payload rewritten = if equal rewritten payload then f else (with_data f rewritten).0

  -- `TransformEvent`; where `WithData` fails, it returns the frame as it was.
  unfoldable pub transform_event : Frame → Pins → List Frame × Pins
  unfolding rewrite reframe data_of
  transform_event f pins = elim (data_of f) [
    | none ↦ (f ∷ [], pins)
    | some payload ↦
        let result = rewrite payload pins in (reframe f payload result.0 ∷ [], result.1)
  ]

  -- `TransformServerMessage`.
  unfoldable pub transform_server_message : Bytes → Pins → (Bytes × Bool) × Pins
  unfolding rewrite
  transform_server_message message pins =
      let result = rewrite message pins in ((result.0, true), result.1)
