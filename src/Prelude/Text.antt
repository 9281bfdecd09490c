-- ===== src/Prelude/Text.antt =====
-- Go's `string` and `[]byte` as lists of byte values, with their equality test.
use Prim.Native.Nat.{ℕ, compare, Ordering}
use Prim.Native.Char.{code}
use Prim.Native.String.{String}
use mathlib.Core.Path.{◌≡◌, refl}
use mathlib.Core.Logic.{◌≢◌, ◌↔◌}
use mathlib.Core.Bool.{Bool, true, false, ◌&&◌}
use mathlib.Core.List.{List, [], ◌∷◌, ◌++◌}
use mathlib.Core.Option.{Option, none, some}
use copilotd.Prelude.Tests.{if◌then◌else◌}
use native.Mathlib.Omega.{arith}

abbrev pub Bytes : Type 0
Bytes = List ℕ

-- The bytes of an ASCII literal.
abbrev pub codes : String → Bytes
codes String.[] = []
codes (String.◌∷◌ c s) = code c ∷ codes s

same_byte : ℕ → ℕ → Bool
same_byte a b = elim (compare a b) [ Ordering.eq ↦ true | _ ↦ false ]

-- `a == b` on strings, and `bytes.Equal`.
unfoldable pub equal : Bytes → Bytes → Bool
unfolding same_byte
equal [] [] = true
equal [] (b ∷ ys) = false
equal (a ∷ xs) [] = false
equal (a ∷ xs) (b ∷ ys) = same_byte a b && equal xs ys

pub equal_refl : (xs : Bytes) → equal xs xs ≡ true
unfolding equal
equal_refl [] = refl
equal_refl (a ∷ xs) = ground (arith, equal_refl xs)

pub equal_sound : (xs ys : Bytes) → equal xs ys ≡ true → xs ≡ ys
unfolding equal
equal_sound [] [] h = refl
equal_sound [] (b ∷ ys) h = ground arith
equal_sound (a ∷ xs) [] h = ground arith
equal_sound (a ∷ xs) (b ∷ ys) h = ground (arith, equal_sound xs ys)

pub equal_complete : (xs ys : Bytes) → xs ≡ ys → equal xs ys ≡ true
equal_complete xs ys h = rw (← h) (equal_refl xs)

pub equal_iff : (xs ys : Bytes) → (equal xs ys ≡ true) ↔ (xs ≡ ys)
equal_iff xs ys = (equal_sound xs ys, equal_complete xs ys)

pub ne_of_equal : (xs ys : Bytes) → equal xs ys ≡ false → xs ≢ ys
ne_of_equal xs ys h e = cc (equal_complete xs ys e)

-- `bytes.CutPrefix`.
unfoldable pub cut_prefix : Bytes → Bytes → Option Bytes
unfolding same_byte
cut_prefix [] text = some text
cut_prefix (p ∷ prefix) [] = none
cut_prefix (p ∷ prefix) (c ∷ text) = if same_byte p c then cut_prefix prefix text else none

-- What `bytes.CutPrefix` leaves, with the prefix before it, is the text.
pub cut_prefix_sound :
    (prefix text : Bytes) {rest : Bytes}
    → cut_prefix prefix text ≡ some rest
    → text ≡ prefix ++ rest
unfolding cut_prefix
cut_prefix_sound [] text h = cc h
cut_prefix_sound (p ∷ prefix) [] h = cc h
cut_prefix_sound (p ∷ prefix) (c ∷ text) {rest} h =
    ground (arith, cut_prefix_sound prefix text {rest = rest})

pub cut_prefix-append : (prefix text : Bytes) → cut_prefix prefix (prefix ++ text) ≡ some text
unfolding cut_prefix
cut_prefix-append [] text = refl
cut_prefix-append (p ∷ prefix) text = ground (arith, cut_prefix-append prefix text)
