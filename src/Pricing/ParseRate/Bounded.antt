-- ===== src/Pricing/ParseRate/Bounded.antt =====
-- The rates that are parsed are those that the calculators can value.
use copilotd.Prelude.{
  ℕ, zero, suc, ◌+◌, ◌-◌, ◌/◌, ◌%◌, ◌^◌, ◌≤◌, ◌<◌, ◌||◌, [], ◌∷◌, ◌++◌, Bytes, ltb, ◌==◌, length,
  length-append, ok, ok_injective, >>=-eq-ok, ◌>>=◌, ◌≡◌, arith, Bool-cases, inl, inr,
}
use mathlib.Core.Path.{subst}
use native.Mathlib.Nat.{pow-suc, pow-le-pow_right}
use copilotd.Pricing.Decimal.{print, digits}
use copilotd.Pricing.Amount.{Amount, Rate}
use copilotd.Pricing.Contribution.Exact.{IsRate}
use copilotd.Pricing.ParseAmount.{read}
use copilotd.Pricing.ParseRate.{
  within_bounds, normalized, shifted, integer_part, fraction_part, exponent_part, finished,
  parse_number, is_signed, parse_rate, Exponent,
}

print_lt : (fuel n : ℕ) → n < fuel → n < 10 ^ length (print fuel n)
unfolding print
print_lt zero n h = absurd (omega arith)
print_lt (suc fuel) n h = elim (Bool-cases (ltb n 10)) [
  | inl e ↦ rw (e, print) (ground arith)
  | inr e ↦
      let big : 10 ≤ n = ground arith in
      let later = print_lt fuel (n / 10) (omega arith) in
      let size : length (print fuel (n / 10) ++ (b'0' + n % 10) ∷ [])
          ≡ suc (length (print fuel (n / 10))) =
        omega (arith, length-append (print fuel (n / 10)) ((b'0' + n % 10) ∷ [])) in
      rw (e, print, size, pow-suc) (omega (arith, later))
]

digits_lt : (n : ℕ) → n < 10 ^ length (digits n)
unfolding digits
digits_lt n = print_lt (suc n) n (omega arith)

within_bounds-IsRate : (a : Amount) (r : Rate) → within_bounds a ≡ ok r → IsRate r
unfolding within_bounds
within_bounds-IsRate a r h = elim (Bool-cases (ltb 18 (length (digits a.coefficient) - a.scale))) [
  | inl e ↦ cc (rw (e, within_bounds) at h)
  | inr e ↦ elim (Bool-cases (ltb 18 a.scale)) [
    | inl f ↦ cc (rw (e, f, within_bounds) at h)
    | inr f ↦
        let few : length (digits a.coefficient) ≤ 18 + a.scale = ground arith in
        let most : 10 ^ length (digits a.coefficient) ≤ 10 ^ (18 + a.scale) =
          pow-le-pow_right (omega arith) few in
        subst (λ t. IsRate t) (ok_injective (rw (e, f, within_bounds) at h))
          (record {
            fraction = ground arith;
            integer = omega (arith, digits_lt a.coefficient, most);
          })
  ]
]

finished-IsRate :
    (integer fraction : Bytes) (e : Exponent) (rest : Bytes) (r : Rate)
    → finished integer fraction (e, rest) ≡ ok r
    → IsRate r
finished-IsRate integer fraction e [] r h =
    within_bounds-IsRate (normalized (shifted (read 0 (integer ++ fraction)) (length fraction) e)) r
      h
finished-IsRate integer fraction e (c ∷ rest) r h = cc h

parse_number-IsRate : (raw : Bytes) (r : Rate) → parse_number raw ≡ ok r → IsRate r
unfolding parse_number
parse_number-IsRate raw r h =
    let (integer, e1, h1) = >>=-eq-ok (integer_part raw) _ h in
    let (fraction, e2, h2) =
      >>=-eq-ok (fraction_part integer.1)
        (λ fraction. exponent_part fraction.1 >>= finished integer.0 fraction.0) h1 in
    let (exponent, e3, h3) =
      >>=-eq-ok (exponent_part fraction.1) (finished integer.0 fraction.0) h2 in
    finished-IsRate integer.0 fraction.0 exponent.0 exponent.1 r h3

-- Takes any bytes that are parsed as a rate. The rate has at most 18 fractional digits and at most 18
-- digits before them.
pub parse_rate-IsRate : (raw : Bytes) (r : Rate) → parse_rate raw ≡ ok r → IsRate r
unfolding parse_rate
parse_rate-IsRate raw r h = elim (Bool-cases (length raw == 0 || ltb 128 (length raw))) [
  | inl e ↦ cc (rw (e, parse_rate) at h)
  | inr e ↦ elim (Bool-cases (is_signed raw)) [
    | inl f ↦ cc (rw (e, f, parse_rate) at h)
    | inr f ↦ parse_number-IsRate raw r (rw (e, f, parse_rate) at h)
  ]
]
