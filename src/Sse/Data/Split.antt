-- ===== src/Sse/Data/Split.antt =====
-- Splitting a payload into logical lines, and joining them.
use copilotd.Prelude.{
  ℕ, zero, suc, ◌+◌, ◌≤◌, true, List, [], ◌∷◌, ◌++◌, ◌==◌, Bytes, ◌≡◌, refl, sym, ap, arith,
  append-nil, append_assoc, if◌then◌else◌, length, replicate, All, Bool-cases, inl, inr, ==_iff,
}
use copilotd.Sse.Lines.{push}
use copilotd.Sse.Data.{split, joined}
use copilotd.Sse.Data.Fields.{is_free}

pub split_cons : (p : Bytes) → (v : Bytes) × (vs : List Bytes) × (split p ≡ v ∷ vs)
unfolding split
split_cons [] = ([], [], refl)
split_cons (c ∷ rest) =
    let (v, vs, later) = split_cons rest in
    elim (Bool-cases (c == b'\n')) [
      | inl e ↦ ([], split rest, rw e refl)
      | inr e ↦ (c ∷ v, vs, rw (e, later) refl)
    ]

joined-push : (c : ℕ) (v : Bytes) (vs : List Bytes) → joined (push c (v ∷ vs)) ≡ c ∷ joined (v ∷ vs)
joined-push c v [] = refl
joined-push c v (w ∷ vs) = refl

pub joined-split : (p : Bytes) → joined (split p) ≡ p
unfolding split
joined-split [] = refl
joined-split (c ∷ rest) =
    let (v, vs, later) = split_cons rest in
    let ih = joined-split rest in
    elim (Bool-cases (c == b'\n')) [
      | inl e ↦
          let same = (==_iff c b'\n').0 e in
          rw (e, later) (rw same (ap (◌∷◌ b'\n') (rw later at ih)))
      | inr e ↦ rw (e, later, joined-push c v vs) (ap (◌∷◌ c) (rw later at ih))
    ]

pub free-split : (p : Bytes) → All (λ v. is_free v ≡ true) (split p)
unfolding split is_free
free-split [] = ground arith
free-split (c ∷ rest) =
    let (v, vs, later) = split_cons rest in let ih = free-split rest in ground (arith, later, ih)

newlines : Bytes → ℕ
newlines [] = 0
newlines (c ∷ rest) = (if c == b'\n' then 1 else 0) + newlines rest

length-split : (p : Bytes) → length (split p) ≡ suc (newlines p)
unfolding split newlines
length-split [] = refl
length-split (c ∷ rest) =
    let (v, vs, later) = split_cons rest in ground (arith, later, length-split rest)

newlines-append : (p q : Bytes) → newlines (p ++ q) ≡ newlines p + newlines q
unfolding newlines
newlines-append [] q = omega arith
newlines-append (c ∷ p) q = omega (arith, newlines-append p q)

newlines-joined : (v : Bytes) (vs : List Bytes) → length vs ≤ newlines (joined (v ∷ vs))
unfolding newlines
newlines-joined v [] = omega arith
newlines-joined v (w ∷ vs) =
    omega (arith, newlines-joined w vs, newlines-append v (b'\n' ∷ joined (w ∷ vs)))

-- A joined text has a logical line for each value at least.
pub length-split-joined :
    (v : Bytes) (vs : List Bytes) → length (v ∷ vs) ≤ length (split (joined (v ∷ vs)))
length-split-joined v vs = omega (arith, newlines-joined v vs, length-split (joined (v ∷ vs)))

joined-replicate_one : (v : Bytes) (k : ℕ) → joined (v ∷ replicate k []) ≡ v ++ replicate k b'\n'
joined-replicate_one v zero = sym (append-nil v)
joined-replicate_one v (suc k) = ap (λ t. v ++ b'\n' ∷ t) (joined-replicate_one [] k)

-- Empty values behind the others are newlines behind the text.
pub joined-replicate :
    (v : Bytes) (vs : List Bytes) (k : ℕ)
    → joined ((v ∷ vs) ++ replicate k []) ≡ joined (v ∷ vs) ++ replicate k b'\n'
joined-replicate v [] k = joined-replicate_one v k
joined-replicate v (w ∷ vs) k =
    rw (joined-replicate w vs k)
      (sym (append_assoc v (b'\n' ∷ joined (w ∷ vs)) (replicate k b'\n')))
