-- ===== src/Upstream/Caller/Bounded.antt =====
-- The bounded read of a body (internal/upstream/read_bounded.go).
use copilotd.Prelude.{
  ℕ, zero, suc, ◌≤◌, true, ◌||◌, ◌&&◌, [], ◌∷◌, Option, none, some, Bytes, ltb, ◌==◌, take, length,
  ok, ok_injective, ◌≡◌, refl, sym, inl, inr, Bool-cases, arith,
}
use mathlib.Core.Logic.{◌↔◌}
use copilotd.Upstream.Caller.{Errors, Body, max_int64, read_contents, limited, read_bounded}

length-take_within : (n : ℕ) (xs : Bytes) → n ≤ length xs → length (take n xs) ≡ n
length-take_within zero xs h = refl
length-take_within (suc n) [] h = omega (arith, h)
length-take_within (suc n) (x ∷ xs) h = omega (arith, length-take_within n xs (omega (arith, h)))

-- The contents are the whole body, within the bound.
abbrev pub Whole : {E : Type 0} → Body E → ℕ → Bytes → Type 0
Whole body max contents =
    (contents ≡ body.contents) × (body.ends ≡ none) × (length body.contents ≤ max)

read_contents-Whole :
    {E : Type 0} (errors : Errors E) (xs : Bytes) (ends : Option E) (max : ℕ) (contents : Bytes)
    → (read_contents errors max (xs, ends) ≡ ok contents)
      ↔ ((contents ≡ xs) × (ends ≡ none) × (length xs ≤ max))
read_contents-Whole errors xs (some e) max contents = ((λ h. cc h), (λ h. cc h.1))
read_contents-Whole errors xs none max contents = elim (Bool-cases (ltb max (length xs))) [
  | inl over ↦ rw over ((λ h. cc h), (λ h. ground (arith, h.2, over)))
  | inr within ↦
      rw within ((λ h. (sym (ok_injective h), refl, ground (arith, within))), (λ h. cc h.0))
]

limited-Whole :
    {E : Type 0} (errors : Errors E) (body : Body E) (max : ℕ) (contents : Bytes)
    → (read_contents errors max (limited (suc max) body) ≡ ok contents) ↔ Whole body max contents
unfolding limited
limited-Whole errors body max contents =
    elim (Bool-cases (
      ltb (length body.contents) (suc max)
      || (length body.contents == suc max && body.with_last))) [
        | inl all ↦ rw all (read_contents-Whole errors body.contents body.ends max contents)
        | inr cut ↦
            let long : suc max ≤ length body.contents = ground (arith, cut) in
            let over : ltb max (length (take (suc max) body.contents)) ≡ true =
              rw (length-take_within (suc max) body.contents long) (ground arith) in
            rw (cut, over) ((λ h. cc h), (λ h. ground (arith, h.2, long)))
      ]

-- At any bound, the bounded read returns some contents exactly where they are the whole body, the body
-- ends without an error, and it is no longer than the bound.
pub read_bounded_iff :
    {E : Type 0} (errors : Errors E) (body : Body E) (max : ℕ) (contents : Bytes)
    → (read_bounded errors body max ≡ ok contents) ↔ Whole body max contents
unfolding read_bounded
read_bounded_iff errors body max contents = elim (Bool-cases (ltb max max_int64)) [
  | inl finite ↦ rw finite (limited-Whole errors body max contents)
  | inr endless ↦ rw endless (read_contents-Whole errors body.contents body.ends max contents)
]
