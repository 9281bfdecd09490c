-- ===== src/Modelmatch/Matcher/Retention.antt =====
-- The bytes that the indexes of `New` (internal/usage/modelmatch/matcher.go) retain.
use copilotd.Prelude.{
  ℕ, suc, ◌+◌, ◌≤◌, ◌≡◌, refl, ap, inl, inr, arith, List, [], ◌∷◌, Option, none, some, pos, ltb_ℤ,
  ◌-ℤ◌, ok, ok_injective, >>=-eq-ok, true, false, Bool-cases, Option-cases, Bytes, equal, length,
}
use copilotd.Modelmatch.Matcher.{
  Identity, Selection, Index, Matcher, IndexName, exact_name, normalized_name, dated_name, lookup,
  assign, same_identity, add_selection, index_of, with_index, add, add_both, add_dated,
  add_candidate, add_candidates, new, recognized, lookup_key, normalize, strip_date,
}
use mathlib.Core.Path.{subst}

-- The key bytes of an index.
unfoldable pub size : Index → ℕ
size [] = 0
size ((k, s) ∷ rest) = length k + size rest

-- The count is that of the keys in the three indexes, and within the limit.
pub record IsWithin (n : ℕ) (m : Matcher) : Type 0 where
  pub counted :
      m.retained_identity_bytes ≡ size m.exact_index + size m.normalized_index + size m.dated_index
  pub bounded : m.retained_identity_bytes ≤ n

size-assign : (ix : Index) (key : Bytes) (s : Selection) → size (assign ix key s) ≡ size ix
unfolding size assign
size-assign [] key s = refl
size-assign ((k, t) ∷ rest) key s = elim (Bool-cases (equal k key)) [
  | inl e ↦ rw e refl
  | inr e ↦ rw e (ap (λ x. length k + x) (size-assign rest key s))
]

room : (n r k : ℕ) → r ≤ n → ltb_ℤ (pos n -ℤ pos r) (pos k) ≡ false → r + k ≤ n
unfolding ◌-ℤ◌
room n r k h e = ground arith

abbrev Charged : ℕ → Index → ℕ → Index × ℕ → Type 0
Charged n ix r (ix', r') = (r' + size ix ≡ r + size ix') × (r' ≤ n)

add_selection-Charged :
    {C : Type 0} (n : ℕ) (ix : Index) (r : ℕ) (key : Bytes) (c : Identity) (out : Index × ℕ)
    → r ≤ n
    → add_selection {C = C} (pos n) ix r key c ≡ ok out
    → Charged n ix r out
unfolding size add_selection
add_selection-Charged n ix r key c out b h = elim (Option-cases (lookup ix key)) [
  | inl e ↦ elim (Bool-cases (ltb_ℤ (pos n -ℤ pos r) (pos (length key)))) [
    | inl over ↦ cc (rw (e, over, add_selection) at h)
    | inr fits ↦
        subst (Charged n ix r) (ok_injective (rw (e, fits, add_selection) at h))
          (omega arith, room n r (length key) b fits)
  ]
  | inr (s, e) ↦ elim (Bool-cases (same_identity s.identity c)) [
    | inl same ↦ subst (Charged n ix r) (ok_injective (rw (e, same, add_selection) at h)) (refl, b)
    | inr other ↦
        subst (Charged n ix r) (ok_injective (rw (e, other, add_selection) at h))
          (rw (size-assign ix key (record s { is_ambiguous = true })) refl, b)
  ]
]

add-IsWithin :
    {C : Type 0} (n : ℕ) (which : IndexName) (key : Bytes) (c : Identity) (m m' : Matcher)
    → IsWithin n m
    → add {C = C} (pos n) which key c m ≡ ok m'
    → IsWithin n m'
unfolding add index_of with_index
add-IsWithin n exact_name key c m m' w h =
    let (r, e, f) = >>=-eq-ok _ _ h in
    let (q, b) =
      add_selection-Charged n m.exact_index m.retained_identity_bytes key c r w.bounded e in
    subst (IsWithin n) (ok_injective f)
      (record { counted = omega (arith, w.counted, q); bounded = b })
add-IsWithin n normalized_name key c m m' w h =
    let (r, e, f) = >>=-eq-ok _ _ h in
    let (q, b) =
      add_selection-Charged n m.normalized_index m.retained_identity_bytes key c r w.bounded e in
    subst (IsWithin n) (ok_injective f)
      (record { counted = omega (arith, w.counted, q); bounded = b })
add-IsWithin n dated_name key c m m' w h =
    let (r, e, f) = >>=-eq-ok _ _ h in
    let (q, b) =
      add_selection-Charged n m.dated_index m.retained_identity_bytes key c r w.bounded e in
    subst (IsWithin n) (ok_injective f)
      (record { counted = omega (arith, w.counted, q); bounded = b })

add_both-IsWithin :
    {C : Type 0} (n : ℕ) (which : IndexName) (name : Bytes) (c : Identity) (m m' : Matcher)
    → IsWithin n m
    → add_both {C = C} (pos n) which name c m ≡ ok m'
    → IsWithin n m'
unfolding add_both
add_both-IsWithin n which name c m m' w h =
    let (m1, e, f) = >>=-eq-ok _ _ h in
    add-IsWithin n which (lookup_key c.provider name) c m1 m'
      (add-IsWithin n which (lookup_key [] name) c m m1 w e) f

module _ (time_parse : Bytes → Bytes → Option ℕ) where
  dated-IsWithin :
      {C : Type 0} (n : ℕ) (o : Option Bytes) (c : Identity) (m m' : Matcher)
      → IsWithin n m
      → add_dated time_parse {C = C} (pos n) o c m ≡ ok m'
      → IsWithin n m'
  unfolding add_dated
  dated-IsWithin n none c m m' w h = subst (IsWithin n) (ok_injective h) w
  dated-IsWithin n (some stem) c m m' w h =
      add_both-IsWithin n dated_name (normalize stem) c m m' w h

  candidate-IsWithin :
      {C : Type 0} (n : ℕ) (c : Identity) (m m' : Matcher)
      → IsWithin n m
      → add_candidate time_parse {C = C} (pos n) c m ≡ ok m'
      → IsWithin n m'
  unfolding add_candidate
  candidate-IsWithin n c m m' w h = elim (Bool-cases (recognized c.provider)) [
    | inr e ↦ subst (IsWithin n) (ok_injective (rw (e, add_candidate) at h)) w
    | inl e ↦
        let (m2, g, third) = >>=-eq-ok _ _ (rw (e, add_candidate) at h) in
        let (m1, first, second) = >>=-eq-ok _ _ g in
        dated-IsWithin n (strip_date time_parse c.model) c m2 m'
          (add_both-IsWithin n normalized_name (normalize c.model) c m1 m2
            (add_both-IsWithin n exact_name c.model c m m1 w first) second)
          third
  ]

  candidates-IsWithin :
      {C : Type 0} (ctx_err : ℕ → Option C) (k n : ℕ) (cs : List Identity) (m m' : Matcher)
      → IsWithin n m
      → add_candidates time_parse ctx_err k (pos n) cs m ≡ ok m'
      → IsWithin n m'
  unfolding add_candidates
  candidates-IsWithin ctx_err k n [] m m' w h = elim (Option-cases (ctx_err k)) [
    | inl e ↦ subst (IsWithin n) (ok_injective (rw (e, add_candidates) at h)) w
    | inr (x, e) ↦ cc (rw (e, add_candidates) at h)
  ]
  candidates-IsWithin ctx_err k n (c ∷ cs) m m' w h = elim (Option-cases (ctx_err k)) [
    | inl e ↦
        let (m1, first, rest) = >>=-eq-ok _ _ (rw (e, add_candidates) at h) in
        candidates-IsWithin ctx_err (suc k) n cs m1 m' (candidate-IsWithin n c m m1 w first) rest
    | inr (x, e) ↦ cc (rw (e, add_candidates) at h)
  ]

  -- A matcher that `New` returns retains as many bytes as its three indexes' keys have together, and
  -- at most the limit that was given.
  pub new-IsWithin :
      {C : Type 0} (ctx_err : ℕ → Option C) (n : ℕ) (cs : List Identity) (m : Matcher)
      → new time_parse ctx_err cs (pos n) ≡ ok m
      → IsWithin n m
  unfolding new size
  new-IsWithin ctx_err n cs m h = elim (Bool-cases (ltb_ℤ (pos n) (pos 0))) [
    | inl e ↦ cc (rw (e, new) at h)
    | inr e ↦
        candidates-IsWithin ctx_err 0 n cs _ m (record { counted = refl; bounded = omega arith })
          (rw (e, new) at h)
  ]
