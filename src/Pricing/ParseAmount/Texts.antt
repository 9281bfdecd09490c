-- ===== src/Pricing/ParseAmount/Texts.antt =====
-- What `ParseAmount` reads from the three kinds of text that an amount can have.
use copilotd.Prelude.{
  ℕ, zero, suc, ◌+◌, ◌-◌, ◌%◌, ◌≤◌, ◌<◌, Bool, true, false, ◌&&◌, Option, none, some, [], ◌∷◌, ◌++◌,
  Bytes, codes, ltb, ◌==◌, length, take, drop, replicate, take-append-drop, length-append,
  length-drop, length-replicate, ok, ◌≡◌, refl, sym, ap, ◌∙◌, arith, append-nil,
}
use mathlib.Core.Path.{subst}
use copilotd.Pricing.Decimal.{digits}
use copilotd.Pricing.ParseAmount.{
  is_digit, are_digits, read, cut, is_integer, last_is_zero, is_fraction, canonical, parse_parts,
  parse_amount,
}
use copilotd.Pricing.ParseAmount.Digits.{
  are_digits-append, starts_well, last_is_zero-append, cut-append, cut_digits,
  is_integer-starts_well, read-digits, are_digits-digits, starts_well-digits, last_is_zero-digits,
}

and_both : (a b : Bool) → (a && b) ≡ true → (a ≡ true) × (b ≡ true)
and_both true b h = (refl, h)
and_both false b h = cc h

-- What the parser reads of two parts, where the number is not zero.
parse_parts-some :
    (raw integer fraction : Bytes) (n : ℕ)
    → is_integer integer ≡ true
    → are_digits integer ≡ true
    → is_fraction fraction ≡ true
    → are_digits fraction ≡ true
    → read 0 (integer ++ fraction) ≡ n
    → 0 < n
    → parse_parts raw integer (some fraction)
      ≡ ok (record { coefficient = n; scale = length fraction })
unfolding parse_parts canonical
parse_parts-some raw integer fraction n h1 h2 h3 h4 e pos =
    let positive : (n == 0) ≡ false = ground arith in rw (h1, h2, h3, h4, e, positive) refl

parse_parts-none :
    (raw integer : Bytes) (n : ℕ)
    → is_integer integer ≡ true
    → are_digits integer ≡ true
    → read 0 integer ≡ n
    → 0 < n
    → parse_parts raw integer none ≡ ok (record { coefficient = n; scale = 0 })
unfolding parse_parts canonical
parse_parts-none raw integer n h1 h2 e pos =
    let positive : (n == 0) ≡ false = ground arith in rw (h1, h2, append-nil, e, positive) refl

abbrev is_something : Bytes → Bool
is_something [] = false
is_something (c ∷ rest) = true

parse_amount-parts :
    (raw integer : Bytes) (fraction : Option Bytes)
    → is_something raw ≡ true
    → length raw ≤ 128
    → cut raw ≡ (integer, fraction)
    → parse_amount raw ≡ parse_parts raw integer fraction
unfolding parse_amount
parse_amount-parts [] integer fraction h short e = cc h
parse_amount-parts (c ∷ raw) integer fraction h short e =
    let fits : ltb 128 (length (c ∷ raw)) ≡ false = ground arith in rw (fits, e) refl

read_zeros : (k : ℕ) (ds : Bytes) → read 0 (replicate k b'0' ++ ds) ≡ read 0 ds
unfolding read
read_zeros zero ds = refl
read_zeros (suc k) ds = read_zeros k ds

are_digits_zeros : (k : ℕ) → are_digits (replicate k b'0') ≡ true
unfolding are_digits is_digit
are_digits_zeros zero = refl
are_digits_zeros (suc k) = are_digits_zeros k

starts_well-take :
    (k : ℕ) (ds : Bytes) → starts_well ds ≡ true → 0 < k → starts_well (take k ds) ≡ true
starts_well-take zero ds h k = absurd (omega arith)
starts_well-take (suc k) [] h k' = cc h
starts_well-take (suc k) (d ∷ ds) h k' = h

last_is_zero_behind : (xs ys : Bytes) → 0 < length ys → last_is_zero (xs ++ ys) ≡ last_is_zero ys
last_is_zero_behind xs [] h = absurd (omega arith)
last_is_zero_behind xs (y ∷ ys) h = last_is_zero-append xs y ys

is_fraction-last :
    (fraction : Bytes)
    → 0 < length fraction
    → length fraction ≤ 24
    → last_is_zero fraction ≡ false
    → is_fraction fraction ≡ true
unfolding is_fraction
is_fraction-last [] h k e = absurd (omega arith)
is_fraction-last (c ∷ fraction) h k e =
    let fits : ltb 24 (length (c ∷ fraction)) ≡ false = ground arith in rw (fits, e) refl

is_something-starts_well : (xs ys : Bytes) → starts_well xs ≡ true → is_something (xs ++ ys) ≡ true
is_something-starts_well [] ys h = cc h
is_something-starts_well (x ∷ xs) ys h = refl

starts_well-length : (xs : Bytes) → starts_well xs ≡ true → 0 < length xs
starts_well-length [] h = cc h
starts_well-length (x ∷ xs) h = omega arith

-- The text of a whole number.
pub parse_amount-digits :
    (n : ℕ)
    → 0 < n
    → length (digits n) ≤ 128
    → parse_amount (digits n) ≡ ok (record { coefficient = n; scale = 0 })
parse_amount-digits n pos short =
    let ok_digits = are_digits-digits n in
    let well = starts_well-digits n pos in
    parse_amount-parts (digits n) (digits n) none
      (subst (λ t. is_something t ≡ true) (append-nil (digits n))
        (is_something-starts_well (digits n) [] well))
      short (cut_digits (digits n) ok_digits)
    ∙ parse_parts-none (digits n) (digits n) n (is_integer-starts_well (digits n) ok_digits well)
        ok_digits (read-digits n) pos

-- The text of a number below one.
pub parse_amount-below_one :
    (n k : ℕ)
    → 0 < n
    → (n % 10 == 0) ≡ false
    → k + length (digits n) ≤ 24
    → parse_amount (codes "0." ++ (replicate k b'0' ++ digits n))
      ≡ ok (record { coefficient = n; scale = k + length (digits n) })
unfolding cut is_integer are_digits is_digit read
parse_amount-below_one n k pos odd few =
    let fraction = replicate k b'0' ++ digits n in
    let some_digit = starts_well-length (digits n) (starts_well-digits n pos) in
    let size : length fraction ≡ k + length (digits n) =
      omega (arith, length-append (replicate k b'0') (digits n), length-replicate {A = ℕ} k b'0') in
    let behind = last_is_zero_behind (replicate k b'0') (digits n) some_digit in
    parse_amount-parts (codes "0." ++ fraction) (codes "0") (some fraction) refl
      (omega (arith, size)) refl
    ∙ parse_parts-some (codes "0." ++ fraction) (codes "0") fraction n refl refl
        (is_fraction-last fraction (omega (arith, size)) (omega (arith, size))
          (behind ∙ last_is_zero-digits n ∙ odd))
        (are_digits-append (replicate k b'0') (digits n)
          ∙ rw (are_digits_zeros k) (are_digits-digits n))
        (read_zeros k (digits n) ∙ read-digits n) pos
    ∙ ap (λ t. ok (record { coefficient = n; scale = t })) size

-- The text of a number with an integer part and a fraction.
pub parse_amount-mixed :
    (n k : ℕ)
    → 0 < n
    → (n % 10 == 0) ≡ false
    → 0 < k
    → k < length (digits n)
    → length (digits n) - k ≤ 24
    → length (take k (digits n) ++ b'.' ∷ drop k (digits n)) ≤ 128
    → parse_amount (take k (digits n) ++ b'.' ∷ drop k (digits n))
      ≡ ok (record { coefficient = n; scale = length (digits n) - k })
parse_amount-mixed n k pos odd whole part few short =
    let integer = take k (digits n) in
    let fraction = drop k (digits n) in
    let all = take-append-drop k (digits n) in
    let size : length fraction ≡ length (digits n) - k = length-drop k (digits n) in
    let both =
      and_both (are_digits integer) (are_digits fraction)
        (sym (are_digits-append integer fraction) ∙ ap are_digits all ∙ are_digits-digits n) in
    let well = starts_well-take k (digits n) (starts_well-digits n pos) whole in
    let behind = last_is_zero_behind integer fraction (omega (arith, size)) in
    parse_amount-parts (integer ++ b'.' ∷ fraction) integer (some fraction)
      (is_something-starts_well integer (b'.' ∷ fraction) well) short
      (cut-append integer fraction both.0)
    ∙ parse_parts-some (integer ++ b'.' ∷ fraction) integer fraction n
        (is_integer-starts_well integer both.0 well) both.0
        (is_fraction-last fraction (omega (arith, size)) (omega (arith, size))
          (sym behind ∙ ap last_is_zero all ∙ last_is_zero-digits n ∙ odd))
        both.1 (ap (read 0) all ∙ read-digits n) pos
    ∙ ap (λ t. ok (record { coefficient = n; scale = t })) size
