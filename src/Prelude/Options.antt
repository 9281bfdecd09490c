-- ===== src/Prelude/Options.antt =====
-- Chains of Go's `value, ok` results, as options.
use mathlib.Core.Path.{◌≡◌, refl}
use mathlib.Core.Option.{Option, none, some}

infixl 5 ◌>>=◌
abbrev pub ◌>>=◌ {ℓ κ} : {A : Type ℓ} {B : Type κ} → Option A → (A → Option B) → Option B
none >>= next = none
some value >>= next = next value

-- A chain that succeeds has a first part that does.
pub >>=-eq-some {ℓ κ} :
    {A : Type ℓ} {B : Type κ} (first : Option A) (next : A → Option B) {out : B}
    → (first >>= next) ≡ some out
    → (mid : A) × (first ≡ some mid) × (next mid ≡ some out)
>>=-eq-some none next h = cc h
>>=-eq-some (some value) next h = (value, refl, h)
