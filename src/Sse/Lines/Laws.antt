-- ===== src/Sse/Lines/Laws.antt =====
-- Cutting into lines is undone by joining, and joined lines are cut where they were.
use copilotd.Prelude.{true, List, [], ◌∷◌, ◌++◌, ℕ, ◌≡◌, refl, arith, Bytes, All}
use copilotd.Sse.Lines.{lines, is_line, push}

abbrev pub concat : List Bytes → Bytes
concat [] = []
concat (line ∷ rest) = line ++ concat rest

concat-push : (c : ℕ) (ls : List Bytes) → concat (push c ls) ≡ c ∷ concat ls
concat-push c [] = refl
concat-push c (l ∷ ls) = refl

pub concat-lines : (raw : Bytes) → concat (lines raw) ≡ raw
unfolding lines
concat-lines [] = refl
concat-lines (c ∷ rest) = ground (arith, concat-push c (lines rest), concat-lines rest)

pub lines_cons :
    (line rest : Bytes) → is_line line ≡ true → lines (line ++ rest) ≡ line ∷ lines rest
unfolding lines is_line
lines_cons [] rest h = cc h
lines_cons (c ∷ []) rest h = ground arith
lines_cons (c ∷ d ∷ line) rest h = ground (arith, lines_cons (d ∷ line) rest)

pub lines-concat : (ls : List Bytes) → All (λ l. is_line l ≡ true) ls → lines (concat ls) ≡ ls
unfolding lines
lines-concat [] h = refl
lines-concat (l ∷ ls) h = rw (lines_cons l (concat ls) h.0, lines-concat ls h.1)
