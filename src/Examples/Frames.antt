-- ===== src/Examples/Frames.antt =====
-- Frames read off bytes, and frames whose payload is replaced (internal/sse/reader.go and data.go).
use copilotd.Prelude.{
  ◌≡◌, ◌≢◌, refl, List, [], ◌∷◌, ◌++◌, Option, none, some, true, Bytes, codes, map, length,
  replicate, ◌-◌, arith, All,
}
use copilotd.Sse.Frame.{Frame}
use copilotd.Sse.Lines.{lines, is_line, is_blank}
use copilotd.Sse.Lines.Laws.{concat}
use copilotd.Sse.Data.{data_of, with_data, parse_data, parse_line, fields, split}
use copilotd.Sse.Data.Fields.{is_value, starts_blank}
use copilotd.Sse.Data.RoundTrip.{data_of-with_data, IsPlain}
use copilotd.Sse.Data.Kept.{with_data-Keeps, Keeps, is_frame}
use copilotd.Sse.Reader.{read, read_raw}
use copilotd.Sse.Reader.Stream.{read_frames-concat, read_frames}

-- An event line and two data lines.
abbrev two_fields : Frame
two_fields = record { kind = codes "delta"; raw = codes "event: delta\ndata: a\r\ndata:b\n\n" }

abbrev one_line : Bytes
one_line = codes "{}"

two_fields-lines : All (λ l. is_line l ≡ true) (lines two_fields.raw)
unfolding lines is_line
two_fields-lines = (refl, (refl, (refl, (refl, tt))))

two_fields-found : fields (parse_data two_fields.raw) ≢ []
unfolding parse_line lines
two_fields-found h = cc h

one_line-IsPlain : All IsPlain (split one_line)
unfolding split is_value starts_blank
one_line-IsPlain = ((refl, refl), tt)

data_of-with_data_example :
    ((with_data two_fields one_line).1 ≡ true)
    × (data_of (with_data two_fields one_line).0
        ≡ some (
            one_line
            ++ replicate
                (length (fields (parse_data two_fields.raw)) - length (split one_line))
                b'\n'))
data_of-with_data_example =
    data_of-with_data two_fields one_line two_fields-lines two_fields-found one_line-IsPlain

-- The replaced values stand between the old prefixes and line endings.
with_data-two_fields :
    (with_data two_fields one_line).0.raw ≡ codes "event: delta\ndata: {}\r\ndata:\n\n"
unfolding with_data
with_data-two_fields = refl

-- A value that starts with a space is not read back behind a prefix without one.
with_data_leading_space :
    data_of (with_data (record { kind = []; raw = codes "data:x\n\n" }) (codes " y")).0
    ≡ some (codes "y")
unfolding with_data data_of
with_data_leading_space = refl

two_fields-is_frame : is_frame (lines two_fields.raw) ≡ true
unfolding is_frame lines is_blank is_line
two_fields-is_frame = refl

-- A payload that looks like the end of the frame and the beginning of another.
abbrev forged : Bytes
forged = codes "a\n\nevent: error\n"

with_data-Keeps_example :
    ((with_data two_fields forged).0.kind ≡ two_fields.kind)
    × Keeps two_fields.raw (with_data two_fields forged).0.raw
with_data-Keeps_example = with_data-Keeps two_fields forged two_fields-is_frame

abbrev no_type : Bytes → Option Bytes
no_type payload = none

abbrev two_raws : List Bytes
two_raws = codes "data: a\n\n" ∷ codes "event: x\n\n" ∷ []

abbrev cut_short : Bytes
cut_short = codes "data: b"

cut_short-ends : read no_type (lines cut_short) ≡ none
unfolding read lines read_raw is_line
cut_short-ends = refl

two_raws-are_frames : All (λ raw. is_frame (lines raw) ≡ true) two_raws
unfolding is_frame lines is_blank is_line
two_raws-are_frames = (refl, (refl, tt))

read_frames-concat_example :
    map (λ f. f.raw) (read_frames no_type 3 (lines (concat two_raws ++ cut_short))) ≡ two_raws
read_frames-concat_example =
    read_frames-concat no_type two_raws cut_short 3 two_raws-are_frames cut_short-ends (omega arith)
