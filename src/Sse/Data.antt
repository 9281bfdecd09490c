-- ===== src/Sse/Data.antt =====
-- internal/sse/data.go: a frame's data fields. A field is the slices of its line (in the source, four
-- offsets into Raw); the other lines keep their bytes.
pub mod Fields
pub mod Reframed
pub mod Kept
pub mod Split
pub mod RoundTrip
use copilotd.Prelude.{
  Bool, true, false, List, [], ◌∷◌, ◌++◌, ℕ, Option, none, some, ◌==◌, if◌then◌else◌, Bytes, codes,
  cut_prefix, equal, map,
}
use mathlib.Core.Option
use copilotd.Sse.Frame.{Frame}
use copilotd.Sse.Lines.{lines, split_ending, is_nil, push}

pub record DataField : Type 0 where
  pub prefix : Bytes
  pub value : Bytes
  pub ending : Bytes

pub data Piece : Type 0 where
  other : Bytes → Piece
  field : DataField → Piece

-- At most one space belongs to the prefix.
unfoldable pub skip_space : Bytes → Bytes → DataField
skip_space [] ending = record { prefix = codes "data:"; value = []; ending = ending }
skip_space (c ∷ rest) ending =
    if c == b' '
    then record { prefix = codes "data: "; value = rest; ending = ending }
    else record { prefix = codes "data:"; value = c ∷ rest; ending = ending }

unfoldable pub parse_content : Bytes → Bytes → Bytes → Piece
unfolding skip_space cut_prefix
parse_content line content ending = elim (cut_prefix (codes "data:") content) [
  | none ↦ other line
  | some rest ↦ field (skip_space rest ending)
]

-- One round of the loop of `parseData`.
unfoldable pub parse_line : Bytes → Piece
unfolding parse_content split_ending
parse_line line = let cut = split_ending line in parse_content line cut.0 cut.1

abbrev pub fields : List Piece → List DataField
fields [] = []
fields (other line ∷ rest) = fields rest
fields (field d ∷ rest) = d ∷ fields rest

abbrev pub values : List DataField → List Bytes
values found = map (λ d. d.value) found

-- The payload: the values, joined by `\n`.
abbrev pub joined : List Bytes → Bytes
joined [] = []
joined (v ∷ []) = v
joined (v ∷ w ∷ rest) = v ++ b'\n' ∷ joined (w ∷ rest)

abbrev pub parse_data : Bytes → List Piece
parse_data raw = map parse_line (lines raw)

-- `Frame.Data`, where `none` is its false.
unfoldable pub data_of : Frame → Option Bytes
unfolding parse_line lines
data_of f =
    let found = fields (parse_data f.raw) in
    if is_nil found then none else some (joined (values found))

-- `bytes.Split(payload, "\n")`.
unfoldable pub split : Bytes → List Bytes
split [] = [] ∷ []
split (c ∷ rest) = let cut = split rest in if c == b'\n' then [] ∷ cut else push c cut

-- The surplus logical lines, each behind the last field's line ending and prefix.
abbrev pub expanded : DataField → List Bytes → Bytes
expanded d [] = []
expanded d (line ∷ rest) = d.ending ++ d.prefix ++ line ++ expanded d rest

-- The new value of every field; `none` is an expansion without a line ending.
unfoldable pub replacements : List DataField → List Bytes → Option (List Bytes)
replacements [] logical = some []
replacements (d ∷ []) [] = some ([] ∷ [])
replacements (d ∷ []) (v ∷ []) = some (v ∷ [])
replacements (d ∷ []) (v ∷ w ∷ more) =
    if is_nil d.ending then none else some ((v ++ expanded d (w ∷ more)) ∷ [])
replacements (d ∷ e ∷ rest) [] = Option.map (◌∷◌ []) (replacements (e ∷ rest) [])
replacements (d ∷ e ∷ rest) (v ∷ more) = Option.map (◌∷◌ v) (replacements (e ∷ rest) more)

-- The writes into `reframed`.
abbrev pub reframed : List Piece → List Bytes → Bytes
reframed [] values = []
reframed (other line ∷ rest) values = line ++ reframed rest values
reframed (field d ∷ rest) [] = d.prefix ++ d.ending ++ reframed rest []
reframed (field d ∷ rest) (v ∷ values) = d.prefix ++ v ++ d.ending ++ reframed rest values

abbrev pub replace_data : List Piece → Bytes → Option Bytes
replace_data pieces payload =
    Option.map (reframed pieces) (replacements (fields pieces) (split payload))

abbrev pub with_raw : Frame → Option Bytes → Frame × Bool
with_raw f none = (f, false)
with_raw f (some raw) = (record f { raw = raw }, true)

-- `Frame.WithData`.
unfoldable pub with_data : Frame → Bytes → Frame × Bool
unfolding parse_line lines split replacements equal
with_data f payload =
    let pieces = parse_data f.raw in
    if is_nil (fields pieces)
    then (f, false)
    else if equal (joined (values (fields pieces))) payload
    then (f, true)
    else with_raw f (replace_data pieces payload)
