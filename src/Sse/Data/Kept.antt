-- ===== src/Sse/Data/Kept.antt =====
-- What a new payload leaves alone: the other lines, the event type and the frame's single blank line.
use copilotd.Prelude.{
  ℕ, Bool, true, false, List, [], ◌∷◌, ◌++◌, some, Bytes, ◌≡◌, ◌≢◌, refl, sym, ap, ◌∙◌, inl, inr,
  arith, map, All, ◌==◌, ◌&&◌, if◌then◌else◌, codes, cut_prefix, cut_prefix_sound, Bool-cases,
  Option-cases, equal,
}
use copilotd.Sse.Frame.{Frame}
use copilotd.Sse.Lines.{lines, is_line, is_blank, is_nil, split_ending, is_ending}
use copilotd.Sse.Data.{
  DataField, Piece, other, field, parse_line, parse_content, parse_data, fields, values, joined,
  reframed, replacements, split, with_data,
}
use copilotd.Sse.Data.Fields.{
  IsField, parse_line-IsField, field_line, split_ending_sound, is_line-field_line, is_free,
}
use copilotd.Sse.Data.Reframed.{
  relined, reline, first_of, tail_of, nonempty, lines-reframed, List-cases, parse_line-other,
  is_free-first, is_free-tail,
}
use copilotd.Sse.Data.Split.{free-split}
use copilotd.Sse.Data.RoundTrip.{
  replacements-some, fields-IsField, with_data-same, with_data-new, with_data-absent,
}
use copilotd.Sse.Reader.{event_value, event_from, event_type}

-- The lines that are no data lines.
abbrev pub others : List Piece → List Bytes
others [] = []
others (other l ∷ rest) = l ∷ others rest
others (field d ∷ rest) = others rest

split_ending_plain :
    (c : ℕ) (rest : Bytes)
    → (c == b'\n') ≡ false
    → (c == b'\r') ≡ false
    → split_ending (c ∷ rest) ≡ (c ∷ (split_ending rest).0, (split_ending rest).1)
unfolding split_ending is_ending
split_ending_plain c [] n r = ground arith
split_ending_plain c (d ∷ []) n r = ground arith
split_ending_plain c (d ∷ e ∷ rest) n r = ground arith

-- The content of a line that begins with `data:` does too.
content_data :
    (rest : Bytes)
    → (split_ending (codes "data:" ++ rest)).0 ≡ codes "data:" ++ (split_ending rest).0
content_data rest =
    rw
      (
        split_ending_plain b'd' (codes "ata:" ++ rest) refl refl,
        split_ending_plain b'a' (codes "ta:" ++ rest) refl refl,
        split_ending_plain b't' (codes "a:" ++ rest) refl refl,
        split_ending_plain b'a' (codes ":" ++ rest) refl refl,
        split_ending_plain b':' rest refl refl,
      )
      refl

pub is_blank-field_line :
    {d : DataField} (v : Bytes) → IsField d → is_blank (field_line d v) ≡ false
unfolding is_blank
is_blank-field_line v p = elim p.prefix_of [ inl e ↦ rw e refl | inr e ↦ rw e refl ]

parse_line_any : (rest : Bytes) → (d : DataField) × (parse_line (codes "data:" ++ rest) ≡ field d)
unfolding parse_line parse_content cut_prefix
parse_line_any rest = (
  _,
  ap (λ t. parse_content (codes "data:" ++ rest) t (split_ending (codes "data:" ++ rest)).1)
      (content_data rest),
)

-- A line that starts with `data:`.
starts_data :
    {d : DataField} (v : Bytes)
    → IsField d
    → (rest : Bytes) × (field_line d v ≡ codes "data:" ++ rest)
starts_data {d} v p = elim p.prefix_of [
  | inl e ↦ (v ++ d.ending, rw e refl)
  | inr e ↦ (b' ' ∷ (v ++ d.ending), rw e refl)
]

parse_line_started :
    {d : DataField} (v : Bytes)
    → IsField d
    → (d' : DataField) × (parse_line (field_line d v) ≡ field d')
parse_line_started v p =
    let (rest, e) = starts_data v p in
    let (d', e') = parse_line_any rest in (d', ap parse_line e ∙ e')

others_own :
    {d : DataField} (vs ls : List Bytes)
    → IsField d
    → others (map parse_line (map (field_line d) vs ++ ls)) ≡ others (map parse_line ls)
others_own [] ls p = refl
others_own (v ∷ vs) ls p = let (d', e) = parse_line_started v p in rw e (others_own vs ls p)

others-reline :
    (l : Bytes) (p : Piece) (last : Bool) (ls vs same next : List Bytes)
    → parse_line l ≡ p
    → is_line l ≡ true
    → others (map parse_line same) ≡ others (map parse_line ls)
    → others (map parse_line next) ≡ others (map parse_line ls)
    → others (map parse_line (reline l p last ls vs same next)) ≡ others (p ∷ map parse_line ls)
unfolding reline
others-reline l (other x) last ls vs same next e here hs hn = rw e (ap (◌∷◌ x) hs)
others-reline l (field d) true ls vs same next e here hs hn =
    others_own (nonempty vs) ls (parse_line-IsField l here e)
others-reline l (field d) false ls vs same next e here hs hn =
    let (d', e') = parse_line_started (first_of vs) (parse_line-IsField l here e) in rw e' hn

pub others-relined :
    (ls vs : List Bytes)
    → All (λ l. is_line l ≡ true) ls
    → others (map parse_line (relined ls vs)) ≡ others (map parse_line ls)
unfolding relined
others-relined [] vs ok = refl
others-relined (l ∷ ls) vs ok =
    others-reline l (parse_line l) (is_nil (fields (map parse_line ls))) ls vs (relined ls vs)
      (relined ls (tail_of vs)) refl ok.0 (others-relined ls vs ok.1)
      (others-relined ls (tail_of vs) ok.1)

-- The shape of a frame: whole lines, of which the last alone is blank.
unfoldable pub is_frame : List Bytes → Bool
is_frame [] = false
is_frame (l ∷ ls) = let later = is_frame ls in if is_blank l then is_nil ls else is_line l && later

is_blank-is_line : (l : Bytes) → is_blank l ≡ true → is_line l ≡ true
unfolding is_blank is_line
is_blank-is_line [] h = cc h
is_blank-is_line (c ∷ []) h = ground arith
is_blank-is_line (c ∷ d ∷ []) h = ground arith
is_blank-is_line (c ∷ d ∷ e ∷ l) h = cc h

All-of_nil : (ls : List Bytes) → is_nil ls ≡ true → All (λ l. is_line l ≡ true) ls
All-of_nil [] h = tt
All-of_nil (l ∷ ls) h = cc h

and_parts : (a b : Bool) → (a && b) ≡ true → (a ≡ true) × (b ≡ true)
and_parts true b h = (refl, h)
and_parts false b h = cc h

pub is_frame-is_line : (ls : List Bytes) → is_frame ls ≡ true → All (λ l. is_line l ≡ true) ls
unfolding is_frame
is_frame-is_line [] h = tt
is_frame-is_line (l ∷ ls) h = elim (Bool-cases (is_blank l)) [
  | inl e ↦ (is_blank-is_line l e, All-of_nil ls (rw (e, is_frame) at h))
  | inr e ↦
      let (here, later) = and_parts (is_line l) (is_frame ls) (rw (e, is_frame) at h) in
      (here, is_frame-is_line ls later)
]

parse_content-data :
    (line content ending : Bytes) {d : DataField}
    → parse_content line content ending ≡ field d
    → (rest : Bytes) × (content ≡ codes "data:" ++ rest)
unfolding parse_content
parse_content-data line content ending h =
    elim (Option-cases (cut_prefix (codes "data:") content)) [
      | inl e ↦ cc (rw (e, parse_content) at h)
      | inr (rest, e) ↦ (rest, cut_prefix_sound (codes "data:") content e)
    ]

event_value-field :
    (line found : Bytes) {d : DataField}
    → parse_line line ≡ field d
    → event_value line found ≡ found
unfolding event_value parse_line cut_prefix
event_value-field line found h =
    let (rest, e) = parse_content-data line (split_ending line).0 (split_ending line).1 h in
    rw (e, event_value) refl

event_from-piece :
    (l : Bytes) (p : Piece) (ls found_in : List Bytes) (found : Bytes)
    → parse_line l ≡ p
    → ((found : Bytes) → event_from ls found ≡ event_from found_in found)
    → (ps : List Piece) → others ps ≡ found_in
    → event_from (l ∷ ls) found ≡ event_from (others (p ∷ ps)) found
event_from-piece l (other x) ls kept found e ih ps same =
    rw (parse_line-other l x e, same) (ih (event_value l found))
event_from-piece l (field d) ls kept found e ih ps same =
    rw (event_value-field l found e, same) (ih found)

event_from-others :
    (ls : List Bytes) (found : Bytes)
    → event_from ls found ≡ event_from (others (map parse_line ls)) found
event_from-others [] found = refl
event_from-others (l ∷ ls) found =
    event_from-piece l (parse_line l) ls (others (map parse_line ls)) found refl
      (event_from-others ls) (map parse_line ls) refl

is_blank-field : (line : Bytes) {d : DataField} → parse_line line ≡ field d → is_blank line ≡ false
unfolding parse_line is_blank
is_blank-field line h =
    let cut = split_ending line in
    let (rest, e) = parse_content-data line cut.0 cut.1 h in
    let whole : line ≡ codes "data:" ++ (rest ++ cut.1) =
      split_ending_sound line ∙ ap (λ t. t ++ cut.1) e in
    rw whole refl

is_nil-reline :
    (l : Bytes) (p : Piece) (last : Bool) (ls vs same next : List Bytes)
    → is_nil (reline l p last ls vs same next) ≡ false
unfolding reline
is_nil-reline l (other x) last ls vs same next = refl
is_nil-reline l (field d) true ls [] same next = refl
is_nil-reline l (field d) true ls (v ∷ vs) same next = refl
is_nil-reline l (field d) false ls vs same next = refl

is_nil-relined : (ls vs : List Bytes) → is_nil (relined ls vs) ≡ is_nil ls
unfolding relined
is_nil-relined [] vs = refl
is_nil-relined (l ∷ ls) vs = is_nil-reline l (parse_line l) _ ls vs _ _

is_free-nonempty :
    (vs : List Bytes) → All (λ v. is_free v ≡ true) vs → All (λ v. is_free v ≡ true) (nonempty vs)
unfolding is_free
is_free-nonempty [] h = (refl, tt)
is_free-nonempty (v ∷ vs) h = h

is_frame_own :
    {d : DataField} (vs ls : List Bytes)
    → IsField d
    → All (λ v. is_free v ≡ true) vs
    → is_frame (map (field_line d) vs ++ ls) ≡ is_frame ls
unfolding is_frame
is_frame_own [] ls p free = refl
is_frame_own (v ∷ vs) ls p free =
    rw (is_blank-field_line v p, is_line-field_line v p free.0) (is_frame_own vs ls p free.1)

is_frame-reline :
    (l : Bytes) (p : Piece) (last : Bool) (ls vs same next : List Bytes)
    → parse_line l ≡ p
    → is_line l ≡ true
    → All (λ v. is_free v ≡ true) vs
    → is_nil same ≡ is_nil ls
    → is_frame same ≡ is_frame ls
    → is_frame next ≡ is_frame ls
    → is_frame (reline l p last ls vs same next) ≡ is_frame (l ∷ ls)
unfolding reline is_frame
is_frame-reline l (other x) last ls vs same next e here free hn hs hx = rw (hn, hs) refl
is_frame-reline l (field d) true ls vs same next e here free hn hs hx =
    rw (is_blank-field l e, here)
      (is_frame_own (nonempty vs) ls (parse_line-IsField l here e) (is_free-nonempty vs free))
is_frame-reline l (field d) false ls vs same next e here free hn hs hx =
    let p = parse_line-IsField l here e in
    rw
      (
        is_blank-field l e,
        here,
        is_blank-field_line (first_of vs) p,
        is_line-field_line (first_of vs) p (is_free-first vs free),
      )
      hx

is_frame-relined :
    (ls vs : List Bytes)
    → All (λ l. is_line l ≡ true) ls
    → All (λ v. is_free v ≡ true) vs
    → is_frame (relined ls vs) ≡ is_frame ls
unfolding relined
is_frame-relined [] vs ok free = refl
is_frame-relined (l ∷ ls) vs ok free =
    is_frame-reline l (parse_line l) (is_nil (fields (map parse_line ls))) ls vs (relined ls vs)
      (relined ls (tail_of vs)) refl ok.0 free (is_nil-relined ls vs)
      (is_frame-relined ls vs ok.1 free)
      (is_frame-relined ls (tail_of vs) ok.1 (is_free-tail vs free))

-- Two raw bytes with the same lines but for data lines, the same event type, and both one frame.
abbrev pub Keeps : Bytes → Bytes → Type 0
Keeps old new =
    (others (parse_data new) ≡ others (parse_data old))
    × (event_type new ≡ event_type old)
    × (is_frame (lines new) ≡ true)

reframed-Keeps :
    (raw payload : Bytes) (rs : List Bytes)
    → is_frame (lines raw) ≡ true
    → replacements (fields (parse_data raw)) (split payload) ≡ some rs
    → Keeps raw (reframed (parse_data raw) rs)
unfolding event_type
reframed-Keeps raw payload rs h e =
    let ok = is_frame-is_line (lines raw) h in
    let new = lines-reframed (lines raw) ok (split payload) rs (free-split payload) e in
    let same = others-relined (lines raw) (split payload) ok in
    rw new (
      same,
      event_from-others (relined (lines raw) (split payload)) []
          ∙ ap (λ t. event_from t []) same
          ∙ sym (event_from-others (lines raw) []),
      is_frame-relined (lines raw) (split payload) ok (free-split payload) ∙ h,
    )

-- Takes a frame of whole lines of which the last alone is blank, and any payload, its line breaks
-- included. Setting the payload keeps the frame's type; its lines other than data lines stay, in
-- order; its event line names the same type; and its bytes are still one frame.
pub with_data-Keeps :
    (f : Frame) (payload : Bytes)
    → is_frame (lines f.raw) ≡ true
    → ((with_data f payload).0.kind ≡ f.kind) × Keeps f.raw (with_data f payload).0.raw
with_data-Keeps f payload h =
    let old = fields (parse_data f.raw) in
    let unchanged : Keeps f.raw f.raw = (refl, refl, h) in
    let (rs, e) =
      replacements-some old (split payload)
        (fields-IsField (lines f.raw) (is_frame-is_line (lines f.raw) h)) in
    elim (List-cases old) [
      | inl none_left ↦ rw (with_data-absent f payload none_left) (refl, unchanged)
      | inr (d, ds, cons) ↦
          let found : old ≢ [] = λ none_left. cc (none_left, cons) in
          elim (Bool-cases (equal (joined (values old)) payload)) [
            | inl same ↦ rw (with_data-same f payload found same) (refl, unchanged)
            | inr differs ↦
                rw (with_data-new f payload found differs e)
                  (refl, reframed-Keeps f.raw payload rs h e)
          ]
    ]
