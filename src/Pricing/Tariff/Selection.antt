-- ===== src/Pricing/Tariff/Selection.antt =====
-- Which rate vector a schedule selects (internal/usage/pricing/snapshot.go, `rateSchedule.rates`).
use mathlib.Core.Bool.{false≢true}
use copilotd.Prelude.{
  ℕ, zero, suc, ◌+◌, ◌-◌, ◌/◌, ◌≤◌, ◌<◌, ◌≡◌, ◌⊎◌, inl, inr, refl, ap, sym, ◌∙◌, arith, List, [],
  ◌∷◌, ◌++◌, some, Bool, true, false, ltb, ◌==◌, All, All-get, length, get_elem?, Bool-cases,
  Option-cases, leb→le, if◌then◌else◌,
}
use copilotd.Pricing.Tariff.{
  ContextTier, RateSchedule, search_between, not_below, schedule_rates, rates_at,
}

-- `sort.Search` on a predicate that is false and then true finds where it becomes true.
module _ (f : ℕ → Bool) (rising : (k l : ℕ) → k ≤ l → f k ≡ true → f l ≡ true) where
  abbrev IsBoundary : ℕ → Type 0
  IsBoundary b = ((k : ℕ) → k < b → f k ≡ false) × ((k : ℕ) → b ≤ k → f k ≡ true)

  below_false : (h k : ℕ) → f h ≡ false → k ≤ h → f k ≡ false
  below_false h k e le = elim (Bool-cases (f k)) [
    | inl up ↦ absurd (false≢true (sym e ∙ rising k h le up))
    | inr down ↦ down
  ]

  search_between_lem :
      (fuel i j : ℕ)
      → i ≤ j
      → j < i + suc fuel
      → ((k : ℕ) → k < i → f k ≡ false)
      → ((k : ℕ) → j ≤ k → f k ≡ true)
      → IsBoundary (search_between fuel f i j) × (search_between fuel f i j ≤ j)
  unfolding search_between
  search_between_lem zero i j le room low high = ((low, λ k p. high k (omega arith)), le)
  search_between_lem (suc fuel) i j le room low high = elim (Bool-cases (ltb i j)) [
    | inr e ↦ rw (e, search_between) ((low, λ k p. high k (ground arith)), le)
    | inl e ↦
        rw (e, search_between)
          (elim (Bool-cases (f ((i + j) / 2))) [
            | inl up ↦
                rw (up, search_between)
                  (let (b, small) =
                      search_between_lem fuel i ((i + j) / 2) (omega arith) (ground arith) low
                        (λ k p. rising ((i + j) / 2) k p up) in
                    (b, omega arith))
            | inr down ↦
                rw (down, search_between)
                  (search_between_lem fuel ((i + j) / 2 + 1) j (ground arith) (ground arith)
                    (λ k p. below_false ((i + j) / 2) k down (omega arith)) high)
          ])
  ]

-- Strictly ascending thresholds, as `parseCost` leaves them: sorted and with no duplicate.
abbrev pub IsAscending : List ContextTier → Type 0
IsAscending [] = Unit
IsAscending (t ∷ tiers) = All (λ u. t.threshold < u.threshold) tiers × IsAscending tiers

not_below-rising :
    (n : ℕ) (tiers : List ContextTier)
    → IsAscending tiers
    → (k l : ℕ) → k ≤ l
    → not_below n tiers k ≡ true
    → not_below n tiers l ≡ true
unfolding not_below
not_below-rising n [] s k l le e = refl
not_below-rising n (t ∷ tiers) s zero zero le e = e
not_below-rising n (t ∷ tiers) s zero (suc l) le e = elim (Option-cases (get_elem? tiers l)) [
  | inl over ↦ rw (over, not_below)
  | inr (u, at) ↦
      let above = All-get (λ v. t.threshold < v.threshold) tiers l s.0 at in
      rw (at, not_below) (ground arith)
]
not_below-rising n (t ∷ tiers) s (suc k) zero le e = absurd (omega arith)
not_below-rising n (t ∷ tiers) s (suc k) (suc l) le e =
    not_below-rising n tiers s.1 k l (omega arith) e

All-not_below :
    (n : ℕ) (tiers : List ContextTier)
    → ((k : ℕ) → not_below n tiers k ≡ true)
    → All (λ t. n ≤ t.threshold) tiers
unfolding not_below
All-not_below n [] h = tt
All-not_below n (t ∷ tiers) h = (leb→le n t.threshold (h 0), All-not_below n tiers (λ k. h (suc k)))

-- The tier before a boundary, and what stands on either side of it.
pub record Split (n : ℕ) (tiers : List ContextTier) (t : ContextTier) : Type 0 where
  pub before : List ContextTier
  pub after : List ContextTier
  pub whole : tiers ≡ before ++ t ∷ after
  pub below : t.threshold < n
  pub rest : All (λ u. n ≤ u.threshold) after

Split-at :
    (n : ℕ) (tiers : List ContextTier) (b : ℕ)
    → ((k : ℕ) → k < suc b → not_below n tiers k ≡ false)
    → ((k : ℕ) → suc b ≤ k → not_below n tiers k ≡ true)
    → suc b ≤ length tiers
    → (t : ContextTier) × (get_elem? tiers b ≡ some t) × Split n tiers t
unfolding not_below
Split-at n [] b low high fits = absurd (omega arith)
Split-at n (t ∷ tiers) zero low high fits = (
  t,
  refl,
  record {
    before = [];
    after = tiers;
    whole = refl;
    below = let e = low 0 (omega arith) in ground arith;
    rest = All-not_below n tiers (λ k. high (suc k) (omega arith));
  },
)
Split-at n (t ∷ tiers) (suc b) low high fits =
    let (u, at, s) =
      Split-at n tiers b (λ k p. low (suc k) (omega arith)) (λ k p. high (suc k) (omega arith))
        (omega arith) in
    (
      u,
      at,
      record {
        before = t ∷ s.before;
        after = s.after;
        whole = ap (λ l. t ∷ l) s.whole;
        below = s.below;
        rest = s.rest;
      },
    )

past : (n : ℕ) (tiers : List ContextTier) (k : ℕ) → length tiers ≤ k → not_below n tiers k ≡ true
unfolding not_below
past n [] k h = refl
past n (t ∷ tiers) zero h = absurd (omega arith)
past n (t ∷ tiers) (suc k) h = past n tiers k (omega arith)

-- On ascending tiers the binary search selects the rates of the greatest threshold strictly below
-- the complete input, and the base rates where every threshold is at or above it.
pub schedule_rates-Split :
    (s : RateSchedule) (n : ℕ)
    → IsAscending s.tiers
    → (All (λ t. n ≤ t.threshold) s.tiers × (schedule_rates s n ≡ s.base))
      ⊎ ((t : ContextTier) × Split n s.tiers t × (schedule_rates s n ≡ t.rates))
unfolding schedule_rates
schedule_rates-Split s n sorted =
    let f = not_below n s.tiers in
    let (boundary, small) =
      search_between_lem f (not_below-rising n s.tiers sorted) (length s.tiers) 0 (length s.tiers)
        (omega arith) (omega arith) (λ k p. absurd (omega arith)) (past n s.tiers) in
    choose (search_between (length s.tiers) f 0 (length s.tiers)) boundary small
  where
    choose :
        (b : ℕ)
        → ((k : ℕ) → k < b → not_below n s.tiers k ≡ false)
          × ((k : ℕ) → b ≤ k → not_below n s.tiers k ≡ true)
        → b ≤ length s.tiers
        → let r = if b == 0 then s.base else rates_at s.base (get_elem? s.tiers (b - 1)) in
          (All (λ t. n ≤ t.threshold) s.tiers × (r ≡ s.base))
          ⊎ ((t : ContextTier) × Split n s.tiers t × (r ≡ t.rates))
    choose zero (low, high) fits = inl (All-not_below n s.tiers (λ k. high k (omega arith)), refl)
    choose (suc b) (low, high) fits =
        let (t, at, parts) = Split-at n s.tiers b low high fits in
        inr (t, parts, let e : suc b - 1 ≡ b = omega arith in rw e (rw at (ground arith)))
