-- ===== src/Shim/Json.antt =====
-- The JSON objects that the shims read: internal/shim/usage_openai.go and responses_item_id.go. Go's
-- map of raw members is a list of pairs in which the first one for a key counts. The standard
-- library's codec is the record `Json`.
use copilotd.Prelude.{
  ℕ, ◌+◌, ◌*◌, ◌-◌, ◌^◌, Bool, true, false, ◌&&◌, ◌||◌, List, [], ◌∷◌, Option, none, some, ◌==◌,
  if◌then◌else◌, Bytes, codes, equal, ltb, leb, ℤ, pos, reverse,
}

abbrev pub Object : Type 0
Object = List (Bytes × Bytes)

pub record Json : Type 0 where
  -- `json.Unmarshal` into a map: `none` where it fails or leaves the map nil.
  pub unmarshal_object : Bytes → Option Object
  -- `json.Unmarshal` into a `*string`: `some none` is a null.
  pub unmarshal_string : Bytes → Option (Option Bytes)
  pub unmarshal_int : Bytes → Option ℤ
  pub unmarshal_array : Bytes → Option (List Bytes)
  -- The members that a `json.Decoder` meets, in order, in one object that ends the input.
  pub members : Bytes → Option Object
  -- `jsontext.AppendUnquote` on nothing.
  pub unquote : Bytes → Option Bytes
  pub marshal_string : Bytes → Bytes
  pub valid_utf8 : Bytes → Bool
  pub sort_strings : List Bytes → List Bytes

-- `object[key]`.
unfoldable pub member : Object → Bytes → Option Bytes
unfolding equal
member [] key = none
member ((k, raw) ∷ rest) key =
    let later = member rest key in if equal k key then some raw else later

-- `object[key] = raw`.
unfoldable pub put : Object → Bytes → Bytes → Object
unfolding equal
put [] key raw = (key, raw) ∷ []
put ((k, old) ∷ rest) key raw =
    let later = put rest key raw in if equal k key then (k, raw) ∷ rest else (k, old) ∷ later

abbrev is_space : ℕ → Bool
is_space c = c == b' ' || c == b'\t' || c == b'\n' || c == b'\r' || c == 11 || c == 12

unfoldable pub trim_left : Bytes → Bytes
trim_left [] = []
trim_left (c ∷ rest) = let later = trim_left rest in if is_space c then later else c ∷ rest

-- `bytes.TrimSpace` on ASCII space.
abbrev pub trim_space : Bytes → Bytes
trim_space raw = reverse (trim_left (reverse (trim_left raw)))

unfoldable pub is_json_null : Bytes → Bool
unfolding equal trim_left
is_json_null raw = equal (trim_space raw) (codes "null")

-- The digits' value, where every byte is one.
unfoldable pub digits : Bytes → ℕ → Option ℕ
digits [] value = some value
digits (c ∷ rest) value =
    let later = digits rest (value * 10 + (c - b'0')) in
    if leb b'0' c && leb c b'9' then later else none

-- `strconv.ParseInt(raw, 10, 64)` with a result of zero or more.
abbrev signed : Bool → Option ℕ → Option ℕ
signed negative none = none
signed false (some value) = if ltb value (2 ^ 63) then some value else none
signed true (some value) = if value == 0 then some 0 else none

abbrev first_digit : Bool → Bytes → Option ℕ
unfolding digits
first_digit negative [] = none
first_digit negative (c ∷ rest) = signed negative (digits (c ∷ rest) 0)

unfoldable pub parse_nonnegative_int64 : Bytes → Option ℕ
unfolding first_digit
parse_nonnegative_int64 [] = none
parse_nonnegative_int64 (c ∷ rest) =
    if c == b'-'
    then first_digit true rest
    else if c == b'+'
    then first_digit false rest
    else first_digit false (c ∷ rest)

module _ (json : Json) where
  -- `none` is a false `ok`.
  unfoldable pub required_json_object : Object → Bytes → Option Object
  unfolding member is_json_null
  required_json_object object key = elim (member object key) [
    | none ↦ none
    | some raw ↦ if is_json_null raw then none else json.unmarshal_object raw
  ]

  abbrev present_object : Option Object → Option (Option Object)
  present_object none = none
  present_object (some object) = some (some object)

  -- `none` is an invalid member, `some none` an absent one.
  unfoldable pub optional_json_object : Object → Bytes → Option (Option Object)
  unfolding member is_json_null
  optional_json_object object key = elim (member object key) [
    | none ↦ some none
    | some raw ↦ if is_json_null raw then some none else present_object (json.unmarshal_object raw)
  ]

  abbrev nonempty_string : Option (Option Bytes) → Option Bytes
  nonempty_string none = none
  nonempty_string (some none) = none
  nonempty_string (some (some [])) = none
  nonempty_string (some (some (c ∷ rest))) = some (c ∷ rest)

  unfoldable pub required_nonempty_string : Object → Bytes → Option Bytes
  unfolding member
  required_nonempty_string object key = elim (member object key) [
    | none ↦ none
    | some raw ↦ nonempty_string (json.unmarshal_string raw)
  ]

abbrev reported : Option ℕ → Option (Option ℤ)
reported none = none
reported (some value) = some (some (pos value))

unfoldable pub optional_nonnegative_int64 : Object → Bytes → Option (Option ℤ)
unfolding member is_json_null parse_nonnegative_int64
optional_nonnegative_int64 object key = elim (member object key) [
  | none ↦ some none
  | some raw ↦ if is_json_null raw then some none else reported (parse_nonnegative_int64 raw)
]
