-- ===== src/Prelude/Results.antt =====
-- A Go pair `(value, error)` of which exactly one part is meaningful.
use mathlib.Core.Path.{◌≡◌, refl}
use mathlib.Core.Logic.{◌⊎◌, inl, inr}

pub data Result (E A : Type 0) : Type 0 where
  ok : A → Result E A
  err : E → Result E A

infixl 5 ◌>>=◌
abbrev pub ◌>>=◌ : {E A B : Type 0} → Result E A → (A → Result E B) → Result E B
err e >>= next = err e
ok value >>= next = next value

-- A chain that succeeds has a first part that does, with the value that the rest is given.
pub >>=-eq-ok :
    {E A B : Type 0} (first : Result E A) (next : A → Result E B) {out : B}
    → (first >>= next) ≡ ok out
    → (mid : A) × (first ≡ ok mid) × (next mid ≡ ok out)
>>=-eq-ok (err e) next failed = cc
>>=-eq-ok (ok value) next done = (value, refl, done)

pub ok_injective : {E A : Type 0} {a b : A} → Path (Result E A) (ok a) (ok b) → a ≡ b
ok_injective h = cc h

pub Result-cases :
    {E A : Type 0} (r : Result E A) → ((a : A) × (r ≡ ok a)) ⊎ ((e : E) × (r ≡ err e))
Result-cases (ok a) = inl (a, refl)
Result-cases (err e) = inr (e, refl)
