-- ===== src/Sse/Data/RoundTrip.antt =====
-- The payload that is put into a frame is read back from it.
use copilotd.Prelude.{
  ℕ, zero, suc, ◌-◌, true, false, List, [], ◌∷◌, ◌++◌, some, Bytes, ◌≡◌, ◌≢◌, refl, sym, ap, ◌∙◌,
  arith, append-nil, map, length, replicate, length-map, All, Bool-cases, equal, equal_sound, inl,
  inr,
}
use copilotd.Sse.Frame.{Frame}
use copilotd.Sse.Lines.{lines, is_line, is_nil}
use copilotd.Sse.Data.{
  DataField, Piece, other, field, parse_line, parse_data, fields, values, joined, reframed,
  replacements, split, data_of, with_data,
}
use copilotd.Sse.Data.Fields.{
  IsField, parse_line-IsField, parse_line-field_line, field_line, is_value, starts_blank,
}
use copilotd.Sse.Data.Reframed.{
  relined, reline, first_of, tail_of, nonempty, lines-reframed, List-cases,
}
use copilotd.Sse.Data.Split.{
  split_cons, joined-split, free-split, length-split-joined, joined-replicate,
}

-- A logical line that a field can carry: no line break, no space in front, no `\r` at the end.
abbrev pub IsPlain : Bytes → Type 0
IsPlain v = (is_value v ≡ true) × (starts_blank v ≡ false)

IsPlain-first : (vs : List Bytes) → All IsPlain vs → IsPlain (first_of vs)
unfolding is_value starts_blank
IsPlain-first [] h = (refl, refl)
IsPlain-first (v ∷ vs) h = h.0

IsPlain-nonempty : (vs : List Bytes) → All IsPlain vs → All IsPlain (nonempty vs)
unfolding is_value starts_blank
IsPlain-nonempty [] h = ((refl, refl), tt)
IsPlain-nonempty (v ∷ vs) h = h

IsPlain-tail : (vs : List Bytes) → All IsPlain vs → All IsPlain (tail_of vs)
IsPlain-tail [] h = h
IsPlain-tail (v ∷ vs) h = h.1

values_own :
    {d : DataField} (vs ls : List Bytes)
    → IsField d
    → All IsPlain vs
    → fields (map parse_line ls) ≡ []
    → values (fields (map parse_line (map (field_line d) vs ++ ls))) ≡ vs
values_own [] ls p plain none_left = rw none_left refl
values_own (v ∷ vs) ls p plain none_left =
    rw (parse_line-field_line v p plain.0.0 plain.0.1)
      (ap (◌∷◌ v) (values_own vs ls p plain.1 none_left))

-- The values that the new lines carry: surplus fields stay empty.
abbrev pad : ℕ → List Bytes → List Bytes
pad zero vs = vs
pad (suc n) [] = [] ∷ pad n []
pad (suc n) (v ∷ vs) = v ∷ pad n vs

pad_cons : (n : ℕ) (vs : List Bytes) → pad (suc n) vs ≡ first_of vs ∷ pad n (tail_of vs)
pad_cons n [] = refl
pad_cons n (v ∷ vs) = refl

pad_one : (vs : List Bytes) → pad 1 vs ≡ nonempty vs
pad_one [] = refl
pad_one (v ∷ vs) = refl

pad-eq : (n : ℕ) (vs : List Bytes) → pad n vs ≡ vs ++ replicate (n - length vs) []
pad-eq zero vs = let e : 0 - length vs ≡ 0 = omega arith in rw e (sym (append-nil vs))
pad-eq (suc n) [] =
    let e : suc n - 0 ≡ suc (n - 0) = omega arith in rw e (ap (◌∷◌ []) (pad-eq n []))
pad-eq (suc n) (v ∷ vs) =
    let e : suc n - suc (length vs) ≡ n - length vs = omega arith in rw e (ap (◌∷◌ v) (pad-eq n vs))

abbrev Reads : List Bytes → Type 0
Reads ls =
    (vs : List Bytes)
    → All IsPlain vs
    → fields (map parse_line ls) ≢ []
    → values (fields (map parse_line (relined ls vs)))
      ≡ pad (length (fields (map parse_line ls))) vs

values-reline :
    (l : Bytes) (p : Piece) (ls vs : List Bytes)
    → parse_line l ≡ p
    → is_line l ≡ true
    → Reads ls
    → All IsPlain vs
    → fields (p ∷ map parse_line ls) ≢ []
    → values (
        fields (
          map parse_line (
            reline l p
              (is_nil (fields (map parse_line ls)))
              ls
              vs
              (relined ls vs)
              (relined ls (tail_of vs)))))
      ≡ pad (length (fields (p ∷ map parse_line ls))) vs
unfolding reline
values-reline l (other x) ls vs e here ih plain found = rw e (ih vs plain found)
values-reline l (field d) ls vs e here ih plain found =
    let p = parse_line-IsField l here e in
    let first = IsPlain-first vs plain in
    elim (List-cases (fields (map parse_line ls))) [
      | inl none_left ↦ rw none_left (
          values_own (nonempty vs) ls p (IsPlain-nonempty vs plain) none_left
          ∙ sym (pad_one vs)
          ∙ sym (ap (λ t. pad (suc (length t)) vs) none_left))
      | inr (d', ds, more) ↦
          let later = ih (tail_of vs) (IsPlain-tail vs plain) (λ h. cc (rw more at h)) in
          rw (more, parse_line-field_line (first_of vs) p first.0 first.1, pad_cons)
            (ap (◌∷◌ (first_of vs)) later)
    ]

values-relined : (ls : List Bytes) → All (λ l. is_line l ≡ true) ls → Reads ls
unfolding relined
values-relined [] ok vs plain found = absurd (found refl)
values-relined (l ∷ ls) ok vs plain found =
    values-reline l (parse_line l) ls vs refl ok.0 (values-relined ls ok.1) plain found

joined-pad :
    (n : ℕ) (p : Bytes) → joined (pad n (split p)) ≡ p ++ replicate (n - length (split p)) b'\n'
joined-pad n p =
    let (v, vs, e) = split_cons p in
    let back = joined-split p in
    rw (pad-eq n (split p)) (
      rw e (joined-replicate v vs (n - length (v ∷ vs)))
      ∙ ap (λ t. t ++ replicate (n - length (split p)) b'\n') back)

-- An expansion is refused for want of a line ending only.
pub replacements-some :
    (found : List DataField) (vs : List Bytes)
    → All IsField found
    → (rs : List Bytes) × (replacements found vs ≡ some rs)
unfolding replacements
replacements-some [] vs h = ([], refl)
replacements-some (d ∷ []) [] h = ([] ∷ [], refl)
replacements-some (d ∷ []) (v ∷ []) h = (v ∷ [], refl)
replacements-some (d ∷ []) (v ∷ w ∷ more) h = elim h.0.ending_of [
  | inl e ↦ rw e (_, refl)
  | inr e ↦ rw e (_, refl)
]
replacements-some (d ∷ e ∷ rest) [] h =
    let (rs, later) = replacements-some (e ∷ rest) [] h.1 in ([] ∷ rs, rw later refl)
replacements-some (d ∷ e ∷ rest) (v ∷ more) h =
    let (rs, later) = replacements-some (e ∷ rest) more h.1 in (v ∷ rs, rw later refl)

fields_piece :
    (l : Bytes) (p : Piece) (ps : List Piece)
    → parse_line l ≡ p
    → is_line l ≡ true
    → All IsField (fields ps)
    → All IsField (fields (p ∷ ps))
fields_piece l (other x) ps e here ok = ok
fields_piece l (field d) ps e here ok = (parse_line-IsField l here e, ok)

pub fields-IsField :
    (ls : List Bytes) → All (λ l. is_line l ≡ true) ls → All IsField (fields (map parse_line ls))
fields-IsField [] ok = tt
fields-IsField (l ∷ ls) ok =
    fields_piece l (parse_line l) (map parse_line ls) refl ok.0 (fields-IsField ls ok.1)

values-reframed :
    (raw payload : Bytes) (rs : List Bytes)
    → All (λ l. is_line l ≡ true) (lines raw)
    → All IsPlain (split payload)
    → fields (parse_data raw) ≢ []
    → replacements (fields (parse_data raw)) (split payload) ≡ some rs
    → values (fields (parse_data (reframed (parse_data raw) rs)))
      ≡ pad (length (fields (parse_data raw))) (split payload)
values-reframed raw payload rs ok plain found h =
    rw (lines-reframed (lines raw) ok (split payload) rs (free-split payload) h)
      (values-relined (lines raw) ok (split payload) plain found)

-- A payload in place has no fewer logical lines than fields.
same_payload :
    (found : List DataField) (payload : Bytes)
    → found ≢ []
    → joined (values found) ≡ payload
    → length found - length (split payload) ≡ 0
same_payload [] payload some_field h = absurd (some_field refl)
same_payload (d ∷ ds) payload some_field h =
    let least = length-split-joined d.value (values ds) in
    let e = length-map ds (λ (d : DataField). d.value) in omega (arith, rw h at least, e)

is_nil_ne {ℓ} : {A : Type ℓ} (xs : List A) → xs ≢ [] → is_nil xs ≡ false
is_nil_ne [] h = absurd (h refl)
is_nil_ne (x ∷ xs) h = refl

data_of-eq :
    (f : Frame)
    → fields (parse_data f.raw) ≢ []
    → data_of f ≡ some (joined (values (fields (parse_data f.raw))))
unfolding data_of
data_of-eq f found = rw (is_nil_ne (fields (parse_data f.raw)) found) refl

pub with_data-same :
    (f : Frame) (payload : Bytes)
    → fields (parse_data f.raw) ≢ []
    → equal (joined (values (fields (parse_data f.raw)))) payload ≡ true
    → with_data f payload ≡ (f, true)
unfolding with_data
with_data-same f payload found same = rw (is_nil_ne (fields (parse_data f.raw)) found, same) refl

pub with_data-new :
    (f : Frame) (payload : Bytes) {rs : List Bytes}
    → fields (parse_data f.raw) ≢ []
    → equal (joined (values (fields (parse_data f.raw)))) payload ≡ false
    → replacements (fields (parse_data f.raw)) (split payload) ≡ some rs
    → with_data f payload ≡ (record f { raw = reframed (parse_data f.raw) rs }, true)
unfolding with_data
with_data-new f payload found differs h =
    rw (is_nil_ne (fields (parse_data f.raw)) found, differs, h) refl

pub with_data-absent :
    (f : Frame) (payload : Bytes)
    → fields (parse_data f.raw) ≡ []
    → with_data f payload ≡ (f, false)
unfolding with_data
with_data-absent f payload h = rw h refl

pad_ne : (n : ℕ) (p : Bytes) → pad n (split p) ≢ []
pad_ne zero p h = let (v, vs, e) = split_cons p in cc (rw e at h)
pad_ne (suc n) p h = let (v, vs, e) = split_cons p in cc (rw e at h)

-- Takes a frame whose raw bytes are whole lines, at least one of them a data line, and a payload of
-- which no logical line starts with a space or ends in a carriage return. Setting it succeeds, and
-- reading the data of the result gives the payload, with one newline more for every field beyond its
-- logical lines.
pub data_of-with_data :
    (f : Frame) (payload : Bytes)
    → All (λ l. is_line l ≡ true) (lines f.raw)
    → fields (parse_data f.raw) ≢ []
    → All IsPlain (split payload)
    → ((with_data f payload).1 ≡ true)
      × (data_of (with_data f payload).0
          ≡ some (
              payload
              ++ replicate (length (fields (parse_data f.raw)) - length (split payload)) b'\n'))
data_of-with_data f payload ok found plain =
    let old = fields (parse_data f.raw) in
    let (rs, h) = replacements-some old (split payload) (fields-IsField (lines f.raw) ok) in
    let read = values-reframed f.raw payload rs ok plain found h in
    let g = record f { raw = reframed (parse_data f.raw) rs } in
    elim (Bool-cases (equal (joined (values old)) payload)) [
      | inl same ↦
          let e = equal_sound (joined (values old)) payload same in
          rw
            (
              with_data-same f payload found same,
              data_of-eq f found,
              e,
              same_payload old payload found e,
              append-nil,
            )
            (refl, refl)
      | inr differs ↦
          let some_field : fields (parse_data g.raw) ≢ [] =
            λ none. pad_ne (length old) payload (sym read ∙ ap values none) in
          rw
            (
              with_data-new f payload found differs h,
              data_of-eq g some_field,
              read,
              joined-pad (length old) payload,
            )
            (refl, refl)
    ]
