-- ===== src/Pricing/ParseAmount/RoundTrip.antt =====
-- Every amount is read back from its text.
use copilotd.Prelude.{
  ℕ, zero, suc, ◌+◌, ◌-◌, ◌/◌, ◌%◌, ◌≤◌, ◌<◌, false, ◌∷◌, ◌++◌, codes, ltb, leb, ◌==◌, equal,
  length, take, drop, replicate, ok, ◌≡◌, refl, sym, ap, ◌∙◌, arith, Bool-cases, leb→le, ==_iff,
  ok_injective, ◌⊎◌, inl, inr,
}
use mathlib.Core.Path.{subst}
use copilotd.Pricing.Decimal.{digits, format}
use copilotd.Pricing.Amount.{Amount, new_amount, trim, bounded, amount_text, zero_amount}
use copilotd.Pricing.ParseAmount.{
  is_digit, are_digits, read, cut, is_integer, canonical, parse_parts, parse_amount,
}
use copilotd.Pricing.ParseAmount.Texts.{
  parse_amount-digits, parse_amount-below_one, parse_amount-mixed,
}

-- An amount that is not zero, in its shortest form, with a text that fits.
abbrev IsShortest : Amount → Type 0
IsShortest a =
    (0 < a.coefficient)
    × ((a.scale ≡ 0) ⊎ ((a.coefficient % 10 == 0) ≡ false))
    × (a.scale ≤ 24)
    × (length (amount_text a) ≤ 128)

trim-IsShortest :
    (coefficient scale : ℕ)
    → 0 < coefficient
    → (0 < (trim coefficient scale).coefficient)
      × (((trim coefficient scale).scale ≡ 0)
          ⊎ (((trim coefficient scale).coefficient % 10 == 0) ≡ false))
unfolding trim
trim-IsShortest coefficient zero h = (h, inl refl)
trim-IsShortest coefficient (suc scale) h = elim (Bool-cases (coefficient % 10 == 0)) [
  | inl e ↦
      let whole : coefficient % 10 ≡ 0 = (==_iff (coefficient % 10) 0).0 e in
      rw e (trim-IsShortest (coefficient / 10) scale (omega arith))
  | inr e ↦ rw e (h, inr e)
]

bounded-ok :
    (b a : Amount) → bounded b ≡ ok a → (b ≡ a) × (b.scale ≤ 24) × (length (amount_text b) ≤ 128)
unfolding bounded
bounded-ok b a h = elim (Bool-cases (ltb 24 b.scale)) [
  | inl e ↦ cc (rw (e, bounded) at h)
  | inr e ↦ elim (Bool-cases (ltb 128 (length (amount_text b)))) [
    | inl f ↦ cc (rw (e, f, bounded) at h)
    | inr f ↦ (ok_injective (rw (e, f, bounded) at h), ground arith, ground arith)
  ]
]

new_amount-IsShortest :
    (coefficient scale : ℕ) (a : Amount)
    → new_amount coefficient scale ≡ ok a
    → (a ≡ zero_amount) ⊎ IsShortest a
unfolding new_amount
new_amount-IsShortest coefficient scale a h = elim (Bool-cases (coefficient == 0)) [
  | inl e ↦ inl (sym (ok_injective (rw (e, new_amount) at h)))
  | inr e ↦
      let pos : 0 < coefficient = ground arith in
      let (same, few, short) = bounded-ok (trim coefficient scale) a (rw (e, new_amount) at h) in
      let (positive, shortest) = trim-IsShortest coefficient scale pos in
      inr (subst (λ t. IsShortest t) same (positive, shortest, few, short))
]

not_whole : (n s : ℕ) → (s == 0) ≡ false → (s ≡ 0) ⊎ ((n % 10 == 0) ≡ false) → (n % 10 == 0) ≡ false
not_whole n s e (inl z) = ground arith
not_whole n s e (inr odd) = odd

parse_amount-format :
    (n s : ℕ)
    → 0 < n
    → (s ≡ 0) ⊎ ((n % 10 == 0) ≡ false)
    → s ≤ 24
    → length (format n s) ≤ 128
    → parse_amount (format n s) ≡ ok (record { coefficient = n; scale = s })
unfolding format
parse_amount-format n s pos shortest few short =
    let positive : (n == 0) ≡ false = ground arith in
    elim (Bool-cases (s == 0)) [
      | inl e ↦
          let none_left : s ≡ 0 = (==_iff s 0).0 e in
          let text : format n s ≡ digits n = rw (positive, e) refl in
          rw (text, none_left) (parse_amount-digits n pos (rw text at short))
      | inr e ↦
          let odd = not_whole n s e shortest in
          elim (Bool-cases (leb (length (digits n)) s)) [
            | inl f ↦
                let size = leb→le (length (digits n)) s f in
                let k = s - length (digits n) in
                let text : format n s ≡ codes "0." ++ (replicate k b'0' ++ digits n) =
                  rw (positive, e, f) refl in
                let scale : k + length (digits n) ≡ s = omega (arith, size) in
                rw text (
                  parse_amount-below_one n k pos odd (omega (arith, scale))
                  ∙ ap (λ t. ok (record { coefficient = n; scale = t })) scale)
            | inr f ↦
                let size : s < length (digits n) = ground arith in
                let above : 0 < s = ground arith in
                let k = length (digits n) - s in
                let text : format n s ≡ take k (digits n) ++ b'.' ∷ drop k (digits n) =
                  rw (positive, e, f) refl in
                let scale : length (digits n) - k ≡ s = omega (arith, size) in
                rw text (
                  parse_amount-mixed n k pos odd (omega (arith, size)) (omega (arith, size, above))
                    (omega (arith, scale, few)) (rw text at short)
                  ∙ ap (λ t. ok (record { coefficient = n; scale = t })) scale)
          ]
    ]

parse_amount_zero : parse_amount (format 0 0) ≡ ok zero_amount
unfolding parse_amount cut parse_parts is_integer are_digits is_digit canonical read format equal
parse_amount_zero = refl

-- Takes any coefficient and scale of which newAmount makes an amount. Parsing the amount's text gives
-- that amount.
pub parse_amount-amount_text :
    (coefficient scale : ℕ) (a : Amount)
    → new_amount coefficient scale ≡ ok a
    → parse_amount (amount_text a) ≡ ok a
unfolding amount_text
parse_amount-amount_text coefficient scale a h =
    elim (new_amount-IsShortest coefficient scale a h) [
      | inl e ↦ rw e parse_amount_zero
      | inr (pos, shortest, few, short) ↦
          parse_amount-format a.coefficient a.scale pos shortest few short
    ]
