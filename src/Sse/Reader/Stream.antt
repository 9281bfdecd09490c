-- ===== src/Sse/Reader/Stream.antt =====
-- Whole streams: frames written one behind the other are read back as they were.
use copilotd.Prelude.{
  ℕ, zero, suc, ◌≤◌, Bool, true, false, List, [], ◌∷◌, ◌++◌, Option, none, some, Bytes, ◌≡◌, refl,
  sym, ap, ◌∙◌, inl, inr, arith, append_assoc, append-nil, map, length, All, Bool-cases, ◌&&◌,
}
use copilotd.Sse.Frame.{Frame}
use copilotd.Sse.Lines.{lines, is_line, is_blank, is_nil}
use copilotd.Sse.Lines.Laws.{concat, concat-lines, lines_cons}
use copilotd.Sse.Data.Kept.{is_frame, is_frame-is_line}
use copilotd.Sse.Reader.{read, read_raw, type_name}

lines-concat_rest :
    (ls : List Bytes) (rest : Bytes)
    → All (λ l. is_line l ≡ true) ls
    → lines (concat ls ++ rest) ≡ ls ++ lines rest
lines-concat_rest [] rest ok = refl
lines-concat_rest (l ∷ ls) rest ok =
    rw (append_assoc l (concat ls) rest, lines_cons l (concat ls ++ rest) ok.0)
      (ap (◌∷◌ l) (lines-concat_rest ls rest ok.1))

-- A frame in front of other bytes is cut off as its own lines.
lines-frame :
    (raw rest : Bytes) → is_frame (lines raw) ≡ true → lines (raw ++ rest) ≡ lines raw ++ lines rest
lines-frame raw rest h =
    ap (λ t. lines (t ++ rest)) (sym (concat-lines raw))
    ∙ lines-concat_rest (lines raw) rest (is_frame-is_line (lines raw) h)

nil_of : (ls : List Bytes) → is_nil ls ≡ true → ls ≡ []
nil_of [] h = refl
nil_of (l ∷ ls) h = cc h

and_left : (a b : Bool) → (a && b) ≡ true → (a ≡ true) × (b ≡ true)
and_left true b h = (refl, h)
and_left false b h = cc h

read_raw-frame :
    (ls later : List Bytes) (raw : Bytes)
    → is_frame ls ≡ true
    → read_raw (ls ++ later) raw ≡ some (raw ++ concat ls, later)
unfolding read_raw is_frame
read_raw-frame [] later raw h = cc h
read_raw-frame (l ∷ ls) later raw h =
    let ok = is_frame-is_line (l ∷ ls) h in
    elim (Bool-cases (is_blank l)) [
      | inl e ↦ rw (nil_of ls (rw (e, is_frame) at h), e, ok.0, append-nil) refl
      | inr e ↦
          let (here, rest) = and_left (is_line l) (is_frame ls) (rw (e, is_frame) at h) in
          rw (e, here)
            (read_raw-frame ls later (raw ++ l) rest
              ∙ ap (λ t. some (t, later)) (append_assoc raw l (concat ls)))
    ]

module _ (unmarshal_type : Bytes → Option Bytes) where
  -- Successive reads, up to the stream's error or as many as are asked for.
  abbrev pub read_frames : ℕ → List Bytes → List Frame
  read_frames zero source = []
  read_frames (suc n) source = elim (read unmarshal_type source) [
    | none ↦ []
    | some ((f, fell_back), rest) ↦ f ∷ read_frames n rest
  ]

  read-frame :
      (raw rest : Bytes)
      → is_frame (lines raw) ≡ true
      → read unmarshal_type (lines (raw ++ rest))
        ≡ some (
          (
            record { kind = (type_name unmarshal_type raw).0; raw = raw },
            (type_name unmarshal_type raw).1,
          ),
          lines rest,
        )
  unfolding read
  read-frame raw rest h =
      let cut = lines-frame raw rest h in
      let one = read_raw-frame (lines raw) (lines rest) [] h in
      rw (cut, one, read, concat-lines raw) refl

  -- Takes frames, each of whole lines of which the last alone is blank, and bytes behind them of which
  -- no frame can be read. As many reads as there are frames, or more, return each frame's bytes, in
  -- order, and no more.
  pub read_frames-concat :
      (raws : List Bytes) (rest : Bytes) (n : ℕ)
      → All (λ raw. is_frame (lines raw) ≡ true) raws
      → read unmarshal_type (lines rest) ≡ none
      → length raws ≤ n
      → map (λ f. f.raw) (read_frames n (lines (concat raws ++ rest))) ≡ raws
  read_frames-concat [] rest zero ok ends enough = refl
  read_frames-concat [] rest (suc n) ok ends enough = rw (ends, read_frames) refl
  read_frames-concat (raw ∷ raws) rest zero ok ends enough = absurd (omega arith)
  read_frames-concat (raw ∷ raws) rest (suc n) ok ends enough =
      let here = read-frame raw (concat raws ++ rest) ok.0 in
      rw (append_assoc raw (concat raws) rest, here, read_frames)
        (ap (◌∷◌ raw) (read_frames-concat raws rest n ok.1 ends (omega arith)))
