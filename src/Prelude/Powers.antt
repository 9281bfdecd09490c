-- ===== src/Prelude/Powers.antt =====
-- Powers of a native number.
use Prim.Native.Nat.{ℕ, zero, suc, ◌+◌, ◌*◌, ◌^◌, ◌<◌}
use mathlib.Core.Path.{◌≡◌, ap}
use native.Mathlib.Nat.{add-zero, pow-suc, pow-zero}
use native.Mathlib.Omega.{arith}

pub pow_add : (b m n : ℕ) → b ^ (m + n) ≡ b ^ m * b ^ n
pow_add b m zero = simp (pow-zero, add-zero) (omega arith)
pow_add b m (suc n) =
    let e : m + suc n ≡ suc (m + n) = omega arith in
    rw (e, pow-suc, pow-suc) (omega (arith, ap (λ (t : ℕ). t * b) (pow_add b m n)))

pub pow_positive : (m : ℕ) → 0 < 10 ^ m
pow_positive zero = simp pow-zero (omega arith)
pow_positive (suc m) = rw pow-suc (omega (arith, pow_positive m))

-- Division by a positive common factor.
pub mul_cancel : (a b m : ℕ) → a * 10 ^ m ≡ b * 10 ^ m → a ≡ b
mul_cancel a b m h = grind (arith, pow_positive)
