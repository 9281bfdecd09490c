-- ===== src/Sse/Data/Reframed.antt =====
-- The lines of what `replaceData` writes: the data lines with their new values, the surplus values on
-- lines of their own behind the last of them, and every other line as it was.
use copilotd.Prelude.{
  Bool, true, false, List, [], ◌∷◌, ◌++◌, Option, none, some, Bytes, codes, cut_prefix, ◌≡◌, refl,
  sym, ap, ◌∙◌, ◌⊎◌, inl, inr, append_assoc, append-nil, map, All, Option-cases, Bool-cases,
}
use mathlib.Core.Option
use mathlib.Core.Option.{some-injective}
use copilotd.Sse.Lines.{lines, is_line, is_nil, split_ending}
use copilotd.Sse.Lines.Laws.{concat, lines_cons, lines-concat}
use copilotd.Sse.Data.{
  DataField, Piece, other, field, parse_line, parse_content, fields, reframed, replacements,
  expanded,
}
use copilotd.Sse.Data.Fields.{IsField, parse_line-IsField, field_line, is_line-field_line, is_free}

abbrev pub nonempty : List Bytes → List Bytes
nonempty [] = [] ∷ []
nonempty (v ∷ vs) = v ∷ vs

abbrev pub tail_of : List Bytes → List Bytes
tail_of [] = []
tail_of (v ∷ vs) = vs

abbrev pub first_of : List Bytes → Bytes
first_of [] = []
first_of (v ∷ vs) = v

-- The new lines for one line: `last` where no data line follows in `ls`, of which `same` and `next`
-- are the new lines with all the values and with all but the first.
unfoldable pub reline :
    Bytes → Piece → Bool → List Bytes → List Bytes → List Bytes → List Bytes → List Bytes
reline l (other x) last ls vs same next = l ∷ same
reline l (field d) true ls vs same next = map (field_line d) (nonempty vs) ++ ls
reline l (field d) false ls vs same next = field_line d (first_of vs) ∷ next

unfoldable pub relined : List Bytes → List Bytes → List Bytes
unfolding reline parse_line
relined [] vs = []
relined (l ∷ ls) vs =
    let same = relined ls vs in
    let next = relined ls (tail_of vs) in
    reline l (parse_line l) (is_nil (fields (map parse_line ls))) ls vs same next

parse_content-other :
    (line content ending x : Bytes) → parse_content line content ending ≡ other x → x ≡ line
unfolding parse_content
parse_content-other line content ending x h =
    elim (Option-cases (cut_prefix (codes "data:") content)) [
      | inl e ↦ cc (rw (e, parse_content) at h)
      | inr (rest, e) ↦ cc (rw (e, parse_content) at h)
    ]

pub parse_line-other : (line x : Bytes) → parse_line line ≡ other x → x ≡ line
unfolding parse_line
parse_line-other line x h = parse_content-other line (split_ending line).0 (split_ending line).1 x h

reframed_other_piece :
    (l : Bytes) (p : Piece) (ps : List Piece) (rs : List Bytes) {rest : Bytes}
    → parse_line l ≡ p
    → fields (p ∷ ps) ≡ []
    → (fields ps ≡ [] → reframed ps rs ≡ rest)
    → reframed (p ∷ ps) rs ≡ l ++ rest
reframed_other_piece l (other x) ps rs e h ih = rw (parse_line-other l x e, ih h)
reframed_other_piece l (field d) ps rs e h ih = cc h

-- With no data line, the writes are the lines.
reframed_other :
    (ls rs : List Bytes)
    → fields (map parse_line ls) ≡ []
    → reframed (map parse_line ls) rs ≡ concat ls
reframed_other [] rs h = refl
reframed_other (l ∷ ls) rs h =
    reframed_other_piece l (parse_line l) (map parse_line ls) rs refl h (reframed_other ls rs)

lines_field :
    {d : DataField} (v rest : Bytes)
    → IsField d
    → is_free v ≡ true
    → lines (d.prefix ++ v ++ d.ending ++ rest) ≡ field_line d v ∷ lines rest
lines_field {d} v rest p free = lines_cons (field_line d v) rest (is_line-field_line v p free)

lines-expanded :
    {d : DataField} (v : Bytes) (more : List Bytes) (rest : Bytes)
    → IsField d
    → is_free v ≡ true
    → All (λ w. is_free w ≡ true) more
    → lines (d.prefix ++ (v ++ expanded d more) ++ d.ending ++ rest)
      ≡ map (field_line d) (v ∷ more) ++ lines rest
lines-expanded v [] rest p free all = rw append-nil (lines_field v rest p free)
lines-expanded {d} v (w ∷ more) rest p free all =
    let later = lines-expanded w more rest p all.0 all.1 in
    let here = lines_field v (d.prefix ++ (w ++ expanded d more) ++ d.ending ++ rest) p free in
    let same : d.prefix ++ (v ++ expanded d (w ∷ more)) ++ d.ending ++ rest
        ≡ field_line d v ++ (d.prefix ++ (w ++ expanded d more) ++ d.ending ++ rest) =
      simp append_assoc in
    ap lines same ∙ here ∙ ap (◌∷◌ (field_line d v)) later

last_field :
    {d : DataField} (ls vs rs : List Bytes)
    → IsField d
    → All (λ l. is_line l ≡ true) ls
    → All (λ v. is_free v ≡ true) vs
    → fields (map parse_line ls) ≡ []
    → replacements (d ∷ []) vs ≡ some rs
    → lines (reframed (field d ∷ map parse_line ls) rs) ≡ map (field_line d) (nonempty vs) ++ ls
unfolding replacements is_free
last_field {d} ls [] rs p ok free none_left h =
    rw
      (
        ← some-injective _ _ h,
        reframed_other ls [] none_left,
        lines_field [] (concat ls) p refl,
        lines-concat ls ok,
      )
      refl
last_field {d} ls (v ∷ []) rs p ok free none_left h =
    rw
      (
        ← some-injective _ _ h,
        reframed_other ls [] none_left,
        lines_field v (concat ls) p free.0,
        lines-concat ls ok,
      )
      refl
last_field {d} ls (v ∷ w ∷ more) rs p ok free none_left h = elim (Bool-cases (is_nil d.ending)) [
  | inl e ↦ cc (rw (e, replacements) at h)
  | inr e ↦
      rw
        (
          ← some-injective _ _ (rw (e, replacements) at h),
          reframed_other ls [] none_left,
          lines-expanded v (w ∷ more) (concat ls) p free.0 free.1,
          lines-concat ls ok,
        )
        refl
]

pub List-cases {ℓ} :
    {A : Type ℓ} (xs : List A) → (xs ≡ []) ⊎ ((x : A) × (rest : List A) × (xs ≡ x ∷ rest))
List-cases [] = inl refl
List-cases (x ∷ rest) = inr (x, rest, refl)

pub is_free-first :
    (vs : List Bytes) → All (λ v. is_free v ≡ true) vs → is_free (first_of vs) ≡ true
unfolding is_free
is_free-first [] h = refl
is_free-first (v ∷ vs) h = h.0

pub is_free-tail :
    (vs : List Bytes) → All (λ v. is_free v ≡ true) vs → All (λ v. is_free v ≡ true) (tail_of vs)
is_free-tail [] h = h
is_free-tail (v ∷ vs) h = h.1

map-eq-some :
    {A B : Type 0} (f : A → B) (o : Option A) {b : B}
    → Option.map f o ≡ some b
    → (a : A) × (o ≡ some a) × (b ≡ f a)
map-eq-some f none h = cc h
map-eq-some f (some a) h = (a, refl, sym (some-injective _ _ h))

replacements_cons :
    (d e : DataField) (ds : List DataField) (vs : List Bytes) {rs : List Bytes}
    → replacements (d ∷ e ∷ ds) vs ≡ some rs
    → (next : List Bytes) × (replacements (e ∷ ds) (tail_of vs) ≡ some next)
      × (rs ≡ first_of vs ∷ next)
unfolding replacements
replacements_cons d e ds [] h = map-eq-some _ _ h
replacements_cons d e ds (v ∷ vs) h = map-eq-some _ _ h

-- The new lines of the lines `ls`.
abbrev Relines : List Bytes → Type 0
Relines ls =
    (vs rs : List Bytes)
    → All (λ v. is_free v ≡ true) vs
    → replacements (fields (map parse_line ls)) vs ≡ some rs
    → lines (reframed (map parse_line ls) rs) ≡ relined ls vs

reline-piece :
    (l : Bytes) (p : Piece) (ls vs rs : List Bytes)
    → parse_line l ≡ p
    → is_line l ≡ true
    → All (λ l. is_line l ≡ true) ls
    → Relines ls
    → All (λ v. is_free v ≡ true) vs
    → replacements (fields (p ∷ map parse_line ls)) vs ≡ some rs
    → lines (reframed (p ∷ map parse_line ls) rs)
      ≡ reline l p
          (is_nil (fields (map parse_line ls)))
          ls
          vs
          (relined ls vs)
          (relined ls (tail_of vs))
unfolding reline
reline-piece l (other x) ls vs rs e here ok ih free h =
    rw
      (parse_line-other l x e, lines_cons l (reframed (map parse_line ls) rs) here, ih vs rs free h)
      refl
reline-piece l (field d) ls vs rs e here ok ih free h =
    let p = parse_line-IsField l here e in
    elim (List-cases (fields (map parse_line ls))) [
      | inl none_left ↦ rw none_left (last_field ls vs rs p ok free none_left (rw none_left at h))
      | inr (d', ds, more) ↦
          let (next, second, split) = replacements_cons d d' ds vs (rw more at h) in
          let tail_free = is_free-tail vs free in
          rw
            (
              more,
              split,
              lines_field (first_of vs) (reframed (map parse_line ls) next) p
                  (is_free-first vs free),
              ih (tail_of vs) next tail_free (rw more second),
            )
            refl
    ]

pub lines-reframed : (ls : List Bytes) → All (λ l. is_line l ≡ true) ls → Relines ls
unfolding relined lines
lines-reframed [] ok vs rs free h = refl
lines-reframed (l ∷ ls) ok vs rs free h =
    reline-piece l (parse_line l) ls vs rs refl ok.0 ok.1 (lines-reframed ls ok.1) free h
