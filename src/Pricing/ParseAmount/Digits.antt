-- ===== src/Pricing/ParseAmount/Digits.antt =====
-- The digits of a number, read back (internal/usage/pricing/decimal.go and amount.go).
use copilotd.Prelude.{
  ℕ, zero, suc, ◌+◌, ◌-◌, ◌*◌, ◌/◌, ◌%◌, ◌≤◌, ◌<◌, Bool, true, false, not, ◌&&◌, none, some, [],
  ◌∷◌, ◌++◌, Bytes, ltb, ◌==◌, ◌≡◌, refl, ◌∙◌, arith, Bool-cases, ltb→lt, inl, inr,
}
use copilotd.Pricing.Decimal.{print, digits}
use copilotd.Pricing.ParseAmount.{is_digit, are_digits, read, cut, is_integer, last_is_zero}

pub read-append :
    (value : ℕ) (xs : Bytes) (c : ℕ) → read value (xs ++ c ∷ []) ≡ read value xs * 10 + (c - b'0')
unfolding read
read-append value [] c = refl
read-append value (x ∷ xs) c = read-append (value * 10 + (x - b'0')) xs c

pub read-print : (fuel n : ℕ) → n < fuel → read 0 (print fuel n) ≡ n
unfolding print read
read-print zero n h = absurd (omega arith)
read-print (suc fuel) n h = elim (Bool-cases (ltb n 10)) [
  | inl e ↦ rw (e, print) (omega arith)
  | inr e ↦
      let big : 10 ≤ n = ground arith in
      rw
        (
          e,
          print,
          read-append 0 (print fuel (n / 10)) (b'0' + n % 10),
          read-print fuel (n / 10) (omega arith),
        )
        (omega arith)
]

pub are_digits-append : (xs ys : Bytes) → are_digits (xs ++ ys) ≡ are_digits xs && are_digits ys
unfolding are_digits
are_digits-append [] ys = refl
are_digits-append (x ∷ xs) ys = ground (arith, are_digits-append xs ys)

pub are_digits-print : (fuel n : ℕ) → are_digits (print fuel n) ≡ true
unfolding print are_digits is_digit
are_digits-print zero n = refl
are_digits-print (suc fuel) n = elim (Bool-cases (ltb n 10)) [
  | inl e ↦ rw (e, print) (ground arith)
  | inr e ↦
      let small : n % 10 < 10 = omega arith in
      rw
        (
          e,
          print,
          are_digits-append (print fuel (n / 10)) ((b'0' + n % 10) ∷ []),
          are_digits-print fuel (n / 10),
        )
        (ground arith)
]

-- The first byte is no zero.
abbrev pub starts_well : Bytes → Bool
starts_well [] = false
starts_well (c ∷ rest) = not (c == b'0')

pub starts_well-append : (xs ys : Bytes) → starts_well xs ≡ true → starts_well (xs ++ ys) ≡ true
starts_well-append [] ys h = cc h
starts_well-append (x ∷ xs) ys h = h

pub starts_well-print : (fuel n : ℕ) → 0 < n → n < fuel → starts_well (print fuel n) ≡ true
unfolding print
starts_well-print zero n h k = absurd (omega arith)
starts_well-print (suc fuel) n h k = elim (Bool-cases (ltb n 10)) [
  | inl e ↦ rw (e, print) (ground arith)
  | inr e ↦
      let big : 10 ≤ n = ground arith in
      rw (e, print)
        (starts_well-append (print fuel (n / 10)) _
          (starts_well-print fuel (n / 10) (omega arith) (omega arith)))
]

pub last_is_zero-append :
    (xs : Bytes) (c : ℕ) (ys : Bytes) → last_is_zero (xs ++ c ∷ ys) ≡ last_is_zero (c ∷ ys)
unfolding last_is_zero
last_is_zero-append [] c ys = refl
last_is_zero-append (x ∷ []) c ys = refl
last_is_zero-append (x ∷ y ∷ xs) c ys = last_is_zero-append (y ∷ xs) c ys

pub last_is_zero-print : (fuel n : ℕ) → n < fuel → last_is_zero (print fuel n) ≡ (n % 10 == 0)
unfolding print last_is_zero
last_is_zero-print zero n h = absurd (omega arith)
last_is_zero-print (suc fuel) n h = elim (Bool-cases (ltb n 10)) [
  | inl e ↦
      let small : n < 10 = ltb→lt n 10 e in
      let same : n % 10 ≡ n = omega arith in rw (e, print, same) (ground arith)
  | inr e ↦
      rw (e, print) (last_is_zero-append (print fuel (n / 10)) (b'0' + n % 10) [] ∙ ground arith)
]

pub cut-append : (xs ys : Bytes) → are_digits xs ≡ true → cut (xs ++ b'.' ∷ ys) ≡ (xs, some ys)
unfolding cut are_digits is_digit
cut-append [] ys h = refl
cut-append (x ∷ xs) ys h = ground (arith, cut-append xs ys)

pub cut_digits : (xs : Bytes) → are_digits xs ≡ true → cut xs ≡ (xs, none)
unfolding cut are_digits is_digit
cut_digits [] h = refl
cut_digits (x ∷ xs) h = ground (arith, cut_digits xs)

pub is_integer-starts_well :
    (xs : Bytes) → are_digits xs ≡ true → starts_well xs ≡ true → is_integer xs ≡ true
unfolding is_integer are_digits
is_integer-starts_well [] h k = cc k
is_integer-starts_well (x ∷ []) h k = ground arith
is_integer-starts_well (x ∷ y ∷ xs) h k = ground arith

pub read-digits : (n : ℕ) → read 0 (digits n) ≡ n
unfolding digits
read-digits n = read-print (suc n) n (omega arith)

pub are_digits-digits : (n : ℕ) → are_digits (digits n) ≡ true
unfolding digits
are_digits-digits n = are_digits-print (suc n) n

pub starts_well-digits : (n : ℕ) → 0 < n → starts_well (digits n) ≡ true
unfolding digits
starts_well-digits n h = starts_well-print (suc n) n h (omega arith)

pub last_is_zero-digits : (n : ℕ) → last_is_zero (digits n) ≡ (n % 10 == 0)
unfolding digits
last_is_zero-digits n = last_is_zero-print (suc n) n (omega arith)
