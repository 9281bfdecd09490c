-- ===== src/Sse/Lines.antt =====
-- The lines that internal/sse/reader.go and internal/sse/data.go cut a byte stream into: up to and
-- with each `\n`, the last one perhaps without.
pub mod Laws
use copilotd.Prelude.{Bool, true, false, List, [], ◌∷◌, ℕ, ◌==◌, ◌&&◌, if◌then◌else◌, Bytes}

abbrev pub is_nil {ℓ} : {A : Type ℓ} → List A → Bool
is_nil [] = true
is_nil (x ∷ xs) = false

abbrev pub push : ℕ → List Bytes → List Bytes
push c [] = (c ∷ []) ∷ []
push c (line ∷ rest) = (c ∷ line) ∷ rest

-- What successive `bytes.IndexByte(raw, '\n')` cut off.
unfoldable pub lines : Bytes → List Bytes
lines [] = []
lines (c ∷ rest) = let cut = lines rest in if c == b'\n' then (c ∷ []) ∷ cut else push c cut

-- One line with its `\n`: what `ReadBytes('\n')` returns without an error.
unfoldable pub is_line : Bytes → Bool
is_line [] = false
is_line (c ∷ rest) = let later = is_line rest in if c == b'\n' then is_nil rest else later

-- The line endings: `\n`, `\r\n`, and a bare `\r` at the end of the bytes.
unfoldable pub is_ending : Bytes → Bool
is_ending [] = false
is_ending (c ∷ []) = if c == b'\n' then true else c == b'\r'
is_ending (c ∷ d ∷ []) = c == b'\r' && d == b'\n'
is_ending (c ∷ d ∷ e ∷ rest) = false

-- A line's content, and the ending behind it.
unfoldable pub split_ending : Bytes → Bytes × Bytes
unfolding is_ending
split_ending [] = ([], [])
split_ending (c ∷ rest) =
    let later = split_ending rest in
    if is_ending (c ∷ rest) then ([], c ∷ rest) else (c ∷ later.0, later.1)

-- The blank line that ends a frame.
unfoldable pub is_blank : Bytes → Bool
is_blank [] = false
is_blank (c ∷ []) = c == b'\n'
is_blank (c ∷ d ∷ []) = c == b'\r' && d == b'\n'
is_blank (c ∷ d ∷ e ∷ rest) = false
