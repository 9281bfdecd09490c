-- ===== src/Sse/Data/Fields.antt =====
-- A data line that is given another value is a data line again, with its prefix and its ending.
use copilotd.Prelude.{
  Bool, true, false, not, [], ◌∷◌, ◌++◌, ℕ, ◌==◌, ◌&&◌, Bytes, codes, cut_prefix, ◌≡◌, refl, ap,
  ◌∙◌, ◌⊎◌, inl, inr, arith, Option-cases, Bool-cases,
}
use mathlib.Core.Path.{subst}
use copilotd.Sse.Lines.{split_ending, is_line, is_ending}
use copilotd.Sse.Data.{DataField, field, parse_line, parse_content, skip_space}

-- No `\n` within the text.
unfoldable pub is_free : Bytes → Bool
is_free [] = true
is_free (c ∷ rest) = not (c == b'\n') && is_free rest

-- The text neither holds a `\n` nor ends in a `\r`.
unfoldable pub is_value : Bytes → Bool
is_value [] = true
is_value (c ∷ []) = not (c == b'\n') && not (c == b'\r')
is_value (c ∷ d ∷ rest) = not (c == b'\n') && is_value (d ∷ rest)

unfoldable pub starts_blank : Bytes → Bool
starts_blank [] = false
starts_blank (c ∷ rest) = c == b' '

-- A terminated data line's slices.
pub record IsField (d : DataField) : Type 0 where
  pub prefix_of : (d.prefix ≡ codes "data:") ⊎ (d.prefix ≡ codes "data: ")
  pub ending_of : (d.ending ≡ b'\n' ∷ []) ⊎ (d.ending ≡ b'\r' ∷ b'\n' ∷ [])

split_ending_line :
    (line : Bytes)
    → is_line line ≡ true
    → ((split_ending line).1 ≡ b'\n' ∷ []) ⊎ ((split_ending line).1 ≡ b'\r' ∷ b'\n' ∷ [])
unfolding split_ending is_line is_ending
split_ending_line [] h = cc h
split_ending_line (c ∷ []) h = ground arith
split_ending_line (c ∷ d ∷ []) h = ground (arith, split_ending_line (d ∷ []))
split_ending_line (c ∷ d ∷ e ∷ rest) h = ground (arith, split_ending_line (d ∷ e ∷ rest))

pub split_ending_sound : (line : Bytes) → line ≡ (split_ending line).0 ++ (split_ending line).1
unfolding split_ending
split_ending_sound [] = refl
split_ending_sound (c ∷ rest) = elim (Bool-cases (is_ending (c ∷ rest))) [
  | inl e ↦ rw e refl
  | inr e ↦ rw e (ap (◌∷◌ c) (split_ending_sound rest))
]

skip_space_prefix :
    (rest ending : Bytes)
    → ((skip_space rest ending).prefix ≡ codes "data:")
      ⊎ ((skip_space rest ending).prefix ≡ codes "data: ")
unfolding skip_space
skip_space_prefix [] ending = inl refl
skip_space_prefix (c ∷ rest) ending = ground arith

skip_space_ending : (rest ending : Bytes) → (skip_space rest ending).ending ≡ ending
unfolding skip_space
skip_space_ending [] ending = refl
skip_space_ending (c ∷ rest) ending = ground arith

pub field_injective : {a b : DataField} → field a ≡ field b → a ≡ b
field_injective h = cc h

parse_content-IsField :
    (line content ending : Bytes) {d : DataField}
    → (ending ≡ b'\n' ∷ []) ⊎ (ending ≡ b'\r' ∷ b'\n' ∷ [])
    → parse_content line content ending ≡ field d
    → IsField d
unfolding parse_content
parse_content-IsField line content ending ends h =
    elim (Option-cases (cut_prefix (codes "data:") content)) [
      | inl e ↦ cc (rw (e, parse_content) at h)
      | inr (rest, e) ↦
          let same = field_injective (rw (e, parse_content) at h) in
          subst (λ d. IsField d) same
            (record {
              prefix_of = skip_space_prefix rest ending;
              ending_of = rw skip_space_ending ends;
            })
    ]

pub parse_line-IsField :
    (line : Bytes) {d : DataField} → is_line line ≡ true → parse_line line ≡ field d → IsField d
unfolding parse_line
parse_line-IsField line terminated h =
    let cut = split_ending line in
    parse_content-IsField line cut.0 cut.1 (split_ending_line line terminated) h

-- The line of a field that is given a value.
abbrev pub field_line : DataField → Bytes → Bytes
field_line d v = d.prefix ++ v ++ d.ending

is_line-append :
    (v ending : Bytes) → is_free v ≡ true → is_line ending ≡ true → is_line (v ++ ending) ≡ true
unfolding is_line is_free
is_line-append [] ending free h = h
is_line-append (c ∷ v) ending free h = ground (arith, is_line-append v ending)

is_line_ending :
    (ending : Bytes) → (ending ≡ b'\n' ∷ []) ⊎ (ending ≡ b'\r' ∷ b'\n' ∷ []) → is_line ending ≡ true
unfolding is_line
is_line_ending ending (inl e) = rw e refl
is_line_ending ending (inr e) = rw e refl

pub is_line-field_line :
    {d : DataField} (v : Bytes) → IsField d → is_free v ≡ true → is_line (field_line d v) ≡ true
unfolding is_line
is_line-field_line v p free =
    let rest = is_line-append v _ free (is_line_ending _ p.ending_of) in
    elim p.prefix_of [ inl e ↦ rw e rest | inr e ↦ rw e rest ]

split_ending-append :
    (v ending : Bytes)
    → is_value v ≡ true
    → (ending ≡ b'\n' ∷ []) ⊎ (ending ≡ b'\r' ∷ b'\n' ∷ [])
    → split_ending (v ++ ending) ≡ (v, ending)
unfolding split_ending is_ending is_value
split_ending-append [] ending h (inl e) = rw e refl
split_ending-append [] ending h (inr e) = rw e refl
split_ending-append (c ∷ []) ending h (inl e) = ground arith
split_ending-append (c ∷ []) ending h (inr e) = ground arith
split_ending-append (c ∷ d ∷ v) ending h e = ground (arith, split_ending-append (d ∷ v) ending)

is_value_cons :
    (c : ℕ) (v : Bytes)
    → (c == b'\n') ≡ false
    → (c == b'\r') ≡ false
    → is_value v ≡ true
    → is_value (c ∷ v) ≡ true
unfolding is_value
is_value_cons c [] n r h = ground arith
is_value_cons c (d ∷ v) n r h = ground arith

is_value_data : (v : Bytes) → is_value v ≡ true → is_value (codes "data:" ++ v) ≡ true
unfolding is_value
is_value_data v h = is_value_cons b':' v refl refl h

skip_space_value :
    (v ending : Bytes)
    → starts_blank v ≡ false
    → skip_space v ending ≡ record { prefix = codes "data:"; value = v; ending = ending }
unfolding skip_space starts_blank
skip_space_value [] ending h = refl
skip_space_value (c ∷ v) ending h = rw h refl

parse_line_data :
    (v ending : Bytes)
    → (ending ≡ b'\n' ∷ []) ⊎ (ending ≡ b'\r' ∷ b'\n' ∷ [])
    → is_value v ≡ true
    → starts_blank v ≡ false
    → parse_line (codes "data:" ++ v ++ ending)
      ≡ field (record { prefix = codes "data:"; value = v; ending = ending })
unfolding parse_line parse_content cut_prefix
parse_line_data v ending ends clean tight =
    ap (λ cut. parse_content (codes "data:" ++ v ++ ending) cut.0 cut.1)
      (split_ending-append (codes "data:" ++ v) ending (is_value_data v clean) ends)
    ∙ ap field (skip_space_value v ending tight)

parse_line_spaced :
    (v ending : Bytes)
    → (ending ≡ b'\n' ∷ []) ⊎ (ending ≡ b'\r' ∷ b'\n' ∷ [])
    → is_value v ≡ true
    → parse_line (codes "data: " ++ v ++ ending)
      ≡ field (record { prefix = codes "data: "; value = v; ending = ending })
unfolding parse_line parse_content cut_prefix skip_space
parse_line_spaced v ending ends clean =
    ap (λ cut. parse_content (codes "data: " ++ v ++ ending) cut.0 cut.1)
      (split_ending-append (codes "data: " ++ v) ending
        (is_value_data (b' ' ∷ v) (is_value_cons b' ' v refl refl clean)) ends)

-- A value that neither starts with a space nor ends in a `\r` is read back from the line it is put in.
pub parse_line-field_line :
    {d : DataField} (v : Bytes)
    → IsField d
    → is_value v ≡ true
    → starts_blank v ≡ false
    → parse_line (field_line d v) ≡ field (record d { value = v })
parse_line-field_line {d} v p clean tight = elim p.prefix_of [
  | inl e ↦ rw e (parse_line_data v d.ending p.ending_of clean tight)
  | inr e ↦ rw e (parse_line_spaced v d.ending p.ending_of clean)
]
