-- ===== src/Sse/Reader.antt =====
-- internal/sse/reader.go: frames read off a byte stream. The stream is the lines that successive
-- `ReadBytes('\n')` return, the last one perhaps cut short by the error; `unmarshal_type` is
-- encoding/json's reading of the member `type`, `none` where it fails.
pub mod Stream
use copilotd.Prelude.{
  Bool, true, false, not, List, [], ◌∷◌, ◌++◌, Option, none, some, Bytes, codes, cut_prefix,
  if◌then◌else◌,
}
use copilotd.Sse.Frame.{Frame}
use copilotd.Sse.Lines.{lines, is_line, is_blank, is_nil, split_ending}
use copilotd.Sse.Data.{fields, values, joined, parse_data, parse_line}

-- The bytes up to and with the first blank line, and the lines after it.
unfoldable pub read_raw : List Bytes → Bytes → Option (Bytes × List Bytes)
unfolding is_line is_blank
read_raw [] raw = none
read_raw (line ∷ rest) raw =
    let later = read_raw rest (raw ++ line) in
    if not (is_line line) then none else if is_blank line then some (raw ++ line, rest) else later

abbrev trim_space : Bytes → Bytes
trim_space value = elim (cut_prefix (codes " ") value) [ none ↦ value | some rest ↦ rest ]

-- The event line's value replaces the one found before it.
unfoldable pub event_value : Bytes → Bytes → Bytes
unfolding split_ending cut_prefix
event_value line found = elim (cut_prefix (codes "event:") (split_ending line).0) [
  | none ↦ found
  | some value ↦ trim_space value
]

abbrev pub event_from : List Bytes → Bytes → Bytes
event_from [] found = found
event_from (line ∷ rest) found = event_from rest (event_value line found)

unfoldable pub event_type : Bytes → Bytes
unfolding lines event_value
event_type raw = event_from (lines raw) []

module _ (unmarshal_type : Bytes → Option Bytes) where
  unfoldable pub data_type : Bytes → Bytes
  unfolding parse_line lines
  data_type raw =
      let found = fields (parse_data raw) in
      if is_nil found
      then []
      else elim (unmarshal_type (joined (values found))) [ none ↦ [] | some name ↦ name ]

  abbrev or_message : Bytes → Bytes
  or_message name = if is_nil name then codes "message" else name

  -- The frame's type, and whether `onFallback` is called.
  unfoldable pub type_name : Bytes → Bytes × Bool
  unfolding event_type data_type
  type_name raw =
      let name = event_type raw in
      if is_nil name then (or_message (data_type raw), true) else (name, false)

  -- `Reader.Read`; `none` is the stream's error.
  unfoldable pub read : List Bytes → Option ((Frame × Bool) × List Bytes)
  unfolding read_raw type_name
  read source = elim (read_raw source []) [
    | none ↦ none
    | some (raw, rest) ↦
        let named = type_name raw in some ((record { kind = named.0; raw = raw }, named.1), rest)
  ]
