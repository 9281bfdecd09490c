-- ===== src/Shim/ModelOverride.antt =====
-- internal/shim/model_override.go. The decoder of encoding/json/jsontext is what its calls return on a
-- payload; `unquote` and `quote` are its AppendUnquote and AppendQuote.
pub mod Scanned
pub mod Spliced
use copilotd.Prelude.{
  ℕ, suc, ◌+◌, ◌-◌, Bool, true, false, ◌||◌, List, [], ◌∷◌, ◌++◌, Option, none, some, Bytes, codes,
  equal, ◌==◌, if◌then◌else◌, take, drop,
}

-- A round of the decoder inside the object: a name and the value's span, or a read that fails.
pub data Round : Type 0 where
  member_read : Bytes → ℕ → ℕ → Round
  read_failed : Round

-- The calls on one payload: whether the first token opens an object, the rounds before a closing
-- brace is peeked, whether that brace is then read, and whether the input ends behind it.
pub record Decoding : Type 0 where
  pub opens : Bool
  pub rounds : List Round
  pub closes : Bool
  pub at_end : Bool

pub record Json : Type 0 where
  pub is_utf8 : Bytes → Bool
  pub decoding : Bytes → Decoding
  pub unquote : Bytes → Option Bytes
  pub quote : Bytes → Bytes

pub record Member : Type 0 where
  pub occurrences : ℕ
  pub start : ℕ
  pub finish : ℕ

pub record Members : Type 0 where
  pub model : Member
  pub event_type : Member

abbrev pub unseen : Member
unseen = record { occurrences = 0; start = 0; finish = 0 }

-- `payload[start:end]`.
abbrev pub between : ℕ → ℕ → Bytes → Bytes
between start finish payload = take (finish - start) (drop start payload)

unfoldable pub decode : Json → Member → Bytes → Option Bytes
decode json m payload =
    if m.occurrences == 1 then json.unquote (between m.start m.finish payload) else none

abbrev pub seen : Member → ℕ → ℕ → Member
seen m start finish = record { occurrences = suc m.occurrences; start = start; finish = finish }

unfoldable pub noted : Members → Bytes → ℕ → ℕ → Members
unfolding equal
noted members name start finish =
    if equal name (codes "model")
    then record members { model = seen members.model start finish }
    else if equal name (codes "type")
    then record members { event_type = seen members.event_type start finish }
    else members

unfoldable pub scan_rounds : Members → List Round → Option Members
unfolding noted
scan_rounds members [] = some members
scan_rounds members (read_failed ∷ rest) = none
scan_rounds members (member_read name start finish ∷ rest) =
    scan_rounds (noted members name start finish) rest

abbrev pub ended : Decoding → Option Members → Option Members
ended d none = none
ended d (some members) = if d.closes then (if d.at_end then some members else none) else none

unfoldable pub scan_members : Json → Bytes → Option Members
unfolding scan_rounds
scan_members json payload =
    let d = json.decoding payload in
    let found =
      if d.opens
      then ended d (scan_rounds (record { model = unseen; event_type = unseen }) d.rounds)
      else none in
    if json.is_utf8 payload then found else none

-- The rules by their model.
unfoldable pub target_of : List (Bytes × Bytes) → Bytes → Option Bytes
unfolding equal
target_of [] model = none
target_of ((from, to) ∷ rest) model =
    let later = target_of rest model in if equal from model then some to else later

abbrev pub spliced : Json → Member → Bytes → Bytes → Bytes
spliced json m payload target = take m.start payload ++ json.quote target ++ drop m.finish payload

abbrev pub substituted : Json → Member → Bytes → Bytes → Option Bytes → Bytes
substituted json m payload model none = payload
substituted json m payload model (some target) =
    if equal target model then payload else spliced json m payload target

abbrev pub with_model : Json → List (Bytes × Bytes) → Member → Bytes → Option Bytes → Bytes
with_model json rules m payload none = payload
with_model json rules m payload (some model) =
    substituted json m payload model (target_of rules model)

abbrev pub is_create : Option Bytes → Bool
is_create none = false
is_create (some event_type) = equal event_type (codes "response.create")

abbrev pub is_admitted : Json → Members → Bytes → Bool → Bool
is_admitted json members payload false = true
is_admitted json members payload true = is_create (decode json members.event_type payload)

abbrev pub with_members : Json → List (Bytes × Bytes) → Bytes → Bool → Option Members → Bytes
with_members json rules payload create none = payload
with_members json rules payload create (some members) =
    if is_admitted json members payload create
    then with_model json rules members.model payload (decode json members.model payload)
    else payload

-- `rewrite`.
unfoldable pub rewrite : Json → List (Bytes × Bytes) → Bytes → Bool → Bytes
unfolding scan_members decode target_of equal
rewrite json [] payload create = payload
rewrite json (rule ∷ rules) payload create =
    with_members json (rule ∷ rules) payload create (scan_members json payload)

pub data MessageKind : Type 0 where
  text_message binary_message : MessageKind

-- `TransformRequest`.
abbrev pub transform_request : Json → List (Bytes × Bytes) → Bytes → Bytes
transform_request json rules body = rewrite json rules body false

-- `TransformClientMessage`, which always emits.
abbrev pub transform_client_message :
    Json → List (Bytes × Bytes) → MessageKind × Bytes → (MessageKind × Bytes) × Bool
transform_client_message json rules (text_message, payload) =
    ((text_message, rewrite json rules payload true), true)
transform_client_message json rules (binary_message, payload) = ((binary_message, payload), true)
