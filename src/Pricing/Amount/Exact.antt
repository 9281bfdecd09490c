-- ===== src/Pricing/Amount/Exact.antt =====
-- The arithmetic of internal/usage/pricing/amount.go is exact: nothing is rounded or saturated.
use native.Mathlib.Nat.{pow-suc}
use copilotd.Prelude.{
  ℕ, zero, suc, ◌+◌, ◌-◌, ◌*◌, ◌/◌, ◌%◌, ◌^◌, ◌≤◌, ◌≡◌, ◌≢◌, refl, ap, ◌∙◌, arith, true, Bool-cases,
  inl, inr, ◌⊎◌, ltb, length, ◌==◌, ok, pow_add, mul_cancel, ◌||◌, pos,
}
use copilotd.Pricing.Amount.{
  Amount, Rate, trim, bounded, new_amount, raised, add, common_scale, for_tokens, amount_text,
  zero_amount,
}

-- The two decimals `c / 10 ^ s` and `a` are the same number.
abbrev pub IsValue : ℕ → ℕ → Amount → Type 0
IsValue c s a = a.coefficient * 10 ^ s ≡ c * 10 ^ a.scale

tenfold : (c : ℕ) → (c % 10 == 0) ≡ true → c ≡ c / 10 * 10
tenfold c h = ground arith

trim-IsValue : (c s : ℕ) → IsValue c s (trim c s)
unfolding trim
trim-IsValue c zero = refl
trim-IsValue c (suc s) = elim (Bool-cases (c % 10 == 0)) [
  | inl e ↦ rw e (
      rw pow-suc (
        omega (
          arith,
          tenfold c e,
          ap (λ (t : ℕ). t * 10) (trim-IsValue (c / 10) s),
          ap (λ (t : ℕ). t * 10 ^ (trim (c / 10) s).scale) (tenfold c e),
        )))
  | inr e ↦ rw e refl
]

-- An amount in its canonical form: the fraction has no trailing zero.
abbrev pub IsCanonical : Amount → Type 0
IsCanonical a = (a.scale ≡ 0) ⊎ (a.coefficient % 10 ≢ 0)

trim-IsCanonical : (c s : ℕ) → IsCanonical (trim c s)
unfolding trim
trim-IsCanonical c zero = inl refl
trim-IsCanonical c (suc s) = elim (Bool-cases (c % 10 == 0)) [
  | inl e ↦ rw e (trim-IsCanonical (c / 10) s)
  | inr e ↦ rw e (inr (ground arith))
]

trim-positive : (c s : ℕ) → c ≢ 0 → (trim c s).coefficient ≢ 0
unfolding trim
trim-positive c zero h = h
trim-positive c (suc s) h = elim (Bool-cases (c % 10 == 0)) [
  | inl e ↦ rw e (trim-positive (c / 10) s (ground arith))
  | inr e ↦ rw e h
]

bounded_ok : (a : Amount) {t : Amount} → bounded a ≡ ok t → t ≡ a
unfolding bounded
bounded_ok a h = ground arith

-- What every amount that the constructors return is: canonical, within 24 fractional digits and
-- 128 bytes of text.
pub record IsAmount (a : Amount) : Type 0 where
  pub canonical : IsCanonical a
  pub fraction : a.scale ≤ 24
  pub width : length (amount_text a) ≤ 128

bounded-IsAmount : (a : Amount) {t : Amount} → IsCanonical a → bounded a ≡ ok t → IsAmount t
unfolding bounded
bounded-IsAmount a c h =
    rw (bounded_ok a h) (record { canonical = c; fraction = ground arith; width = ground arith })

new_amount-IsValue : (c s : ℕ) {t : Amount} → new_amount c s ≡ ok t → IsValue c s t
unfolding new_amount
new_amount-IsValue c s {t} h = elim (Bool-cases (c == 0)) [
  | inl e ↦ let z : t ≡ zero_amount = ground arith in rw z (grind arith)
  | inr e ↦ rw (bounded_ok (trim c s) (rw e at h)) (trim-IsValue c s)
]

raise : (c from to : ℕ) → from ≤ to → c * 10 ^ (to - from) * 10 ^ from ≡ c * 10 ^ to
raise c from to h =
    let e : to ≡ to - from + from = omega arith in
    omega (arith, ap (λ (k : ℕ). c * k) (ap (λ (k : ℕ). 10 ^ k) e ∙ pow_add 10 (to - from) from))

raised_lem : (c from to : ℕ) → from ≤ to → raised c from to * 10 ^ from ≡ c * 10 ^ to
unfolding raised
raised_lem c from to h = elim (Bool-cases (ltb from to)) [
  | inl e ↦ rw e (raise c from to h)
  | inr e ↦ rw e (ap (λ (k : ℕ). c * 10 ^ k) (ground arith))
]

common_scale_bounds : (a b : Amount) → (a.scale ≤ common_scale a b) × (b.scale ≤ common_scale a b)
unfolding common_scale
common_scale_bounds a b = ground arith

-- `t / P = (x + y) / T` at a common scale, with the scales cleared.
cross_add :
    (t x y a b A B P T : ℕ)
    → t * P ≡ (x + y) * T
    → x * A ≡ a * P
    → y * B ≡ b * P
    → t * (A * B) * P ≡ (a * B + b * A) * T * P
cross_add t x y a b A B P T h p q = omega (
  arith,
  ap (λ (k : ℕ). k * (A * B)) h,
  ap (λ (k : ℕ). k * (T * B)) p,
  ap (λ (k : ℕ). k * (T * A)) q,
)

-- `Add` returns the exact sum of its operands whenever it returns an amount.
pub add-IsValue :
    (a b : Amount) {t : Amount}
    → add a b ≡ ok t
    → t.coefficient * 10 ^ (a.scale + b.scale)
      ≡ (a.coefficient * 10 ^ b.scale + b.coefficient * 10 ^ a.scale) * 10 ^ t.scale
unfolding add
add-IsValue a b {t} h =
    let scale = common_scale a b in
    let x = raised a.coefficient a.scale scale in
    let y = raised b.coefficient b.scale scale in
    let fits = common_scale_bounds a b in
    rw (pow_add 10 a.scale b.scale) (
      mul_cancel _ _ scale (
        cross_add t.coefficient x y a.coefficient b.coefficient (10 ^ a.scale) (10 ^ b.scale)
          (10 ^ scale) (10 ^ t.scale) (new_amount-IsValue (x + y) scale h)
          (raised_lem a.coefficient a.scale scale fits.0)
          (raised_lem b.coefficient b.scale scale fits.1)))

-- `ForTokens` returns exactly the rate times the tokens, over a million, whenever it returns.
pub for_tokens-IsValue :
    (r : Rate) (n : ℕ) {t : Amount}
    → for_tokens r (pos n) ≡ ok t
    → t.coefficient * 10 ^ (r.scale + 6) ≡ r.coefficient * n * 10 ^ t.scale
unfolding for_tokens
for_tokens-IsValue r n {t} h = elim (Bool-cases (n == 0 || r.coefficient == 0)) [
  | inl e ↦ let z : t ≡ zero_amount = ground arith in rw z (grind arith)
  | inr e ↦ new_amount-IsValue (r.coefficient * n) (r.scale + 6) (rw e at h)
]

-- The amount `a` is `n / 10 ^ 24`: every amount has at most 24 fractional digits.
abbrev pub IsExact : Amount → ℕ → Type 0
IsExact a n = a.coefficient * 10 ^ 24 ≡ n * 10 ^ a.scale

cross_exact :
    (t a b m n A B T K : ℕ)
    → t * (A * B) ≡ (a * B + b * A) * T
    → a * K ≡ m * A
    → b * K ≡ n * B
    → t * K * (A * B) ≡ (m + n) * T * (A * B)
cross_exact t a b m n A B T K h p q =
    omega
      (arith, ap (λ (k : ℕ). k * K) h, ap (λ (k : ℕ). k * (B * T)) p, ap (λ (k : ℕ). k * (A * T)) q)

pub add-IsExact :
    (a b : Amount) (m n : ℕ) {t : Amount}
    → add a b ≡ ok t
    → IsExact a m
    → IsExact b n
    → IsExact t (m + n)
add-IsExact a b m n {t} h p q = mul_cancel _ _ (a.scale + b.scale) (
    rw (pow_add 10 a.scale b.scale) (
      cross_exact t.coefficient a.coefficient b.coefficient m n (10 ^ a.scale) (10 ^ b.scale)
        (10 ^ t.scale) (10 ^ 24) (rw (pow_add 10 a.scale b.scale) at (add-IsValue a b h)) p q))

split_scale : (s : ℕ) → s ≤ 18 → 24 ≡ 18 - s + (s + 6)
split_scale s h = omega arith

pub for_tokens-IsExact :
    (r : Rate) (n : ℕ) {t : Amount}
    → r.scale ≤ 18
    → for_tokens r (pos n) ≡ ok t
    → IsExact t (n * (r.coefficient * 10 ^ (18 - r.scale)))
for_tokens-IsExact r n {t} fits h =
    let unit : 10 ^ 24 ≡ 10 ^ (18 - r.scale) * 10 ^ (r.scale + 6) =
      ap (λ (k : ℕ). 10 ^ k) (split_scale r.scale fits) ∙ pow_add 10 (18 - r.scale) (r.scale + 6) in
    omega (
      arith,
      ap (λ (k : ℕ). t.coefficient * k) unit,
      ap (λ (k : ℕ). k * 10 ^ (18 - r.scale)) (for_tokens-IsValue r n h),
    )
