-- ===== src/Pricing/Amount/Bounds.antt =====
-- Where `newAmount` (internal/usage/pricing/amount.go) cannot overflow, and the width of a text.
use native.Mathlib.Nat.{pow-suc}
use copilotd.Prelude.{
  ℕ, zero, suc, ◌+◌, ◌*◌, ◌/◌, ◌%◌, ◌^◌, ◌≤◌, ◌<◌, ◌≡◌, arith, Bool-cases, inl, inr, ltb, length,
  ◌==◌, ok, length-append, length-replicate, length-take, length-drop,
}
use copilotd.Pricing.Decimal.{print, digits, format}
use copilotd.Pricing.Amount.{Amount, trim, bounded, new_amount, amount_text, zero_amount}

shorter_number : (n k : ℕ) → n < 10 ^ suc k → n / 10 < 10 ^ k
shorter_number n k h = let p : n < 10 ^ k * 10 = rw pow-suc at h in omega arith

length-print : (fuel n k : ℕ) → n < 10 ^ suc k → length (print fuel n) ≤ suc k
unfolding print
length-print zero n k h = omega arith
length-print (suc fuel) n zero h = elim (Bool-cases (ltb n 10)) [
  | inl e ↦ rw (e, print) (omega arith)
  | inr e ↦ absurd (ground arith)
]
length-print (suc fuel) n (suc k) h = elim (Bool-cases (ltb n 10)) [
  | inl e ↦ rw (e, print) (omega arith)
  | inr e ↦
      rw (e, print)
        (rw length-append
          (omega (arith, length-print fuel (n / 10) k (shorter_number n (suc k) h))))
]

length-digits : (n k : ℕ) → n < 10 ^ suc k → length (digits n) ≤ suc k
unfolding digits
length-digits n k h = length-print (suc n) n k h

-- A text is at most two bytes longer than its digits and its fraction.
length-format : (c s : ℕ) → length (format c s) ≤ length (digits c) + s + 2
unfolding format
length-format c s = grind (arith, length-append, length-replicate, length-drop, length-take)

scale-trim : (c s : ℕ) → (trim c s).scale ≤ s
unfolding trim
scale-trim c zero = omega arith
scale-trim c (suc s) = elim (Bool-cases (c % 10 == 0)) [
  | inl e ↦ rw e (omega (arith, scale-trim (c / 10) s))
  | inr e ↦ rw e (omega arith)
]

coefficient-trim : (c s : ℕ) → (trim c s).coefficient ≤ c
unfolding trim
coefficient-trim c zero = omega arith
coefficient-trim c (suc s) = elim (Bool-cases (c % 10 == 0)) [
  | inl e ↦ rw e (omega (arith, coefficient-trim (c / 10) s))
  | inr e ↦ rw e (omega arith)
]

bounded_fits : (a : Amount) → a.coefficient < 10 ^ 100 → a.scale ≤ 24 → bounded a ≡ ok a
unfolding bounded amount_text
bounded_fits a h k =
    ground (arith, length-format a.coefficient a.scale, length-digits a.coefficient 99 h)

-- A coefficient of at most a hundred digits over at most 24 fractional digits does not overflow.
pub new_amount_fits :
    (c s : ℕ)
    → c < 10 ^ 100
    → s ≤ 24
    → (t : Amount) × (new_amount c s ≡ ok t) × (t.coefficient ≤ c) × (t.scale ≤ s)
unfolding new_amount
new_amount_fits c s h k = elim (Bool-cases (c == 0)) [
  | inl e ↦ (zero_amount, rw e, omega arith, omega arith)
  | inr e ↦ (
    trim c s,
    rw e (
        bounded_fits (trim c s) (omega (arith, coefficient-trim c s))
          (omega (arith, scale-trim c s))),
    coefficient-trim c s,
    scale-trim c s,
  )
]
