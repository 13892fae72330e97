-- ===== src/Prelude/Powers.antt =====
-- Powers of ten.
use Prim.Native.Nat.{ℕ, zero, suc, ◌+◌, ◌*◌, ◌-◌, ◌^◌, ◌≤◌, ◌<◌}
use mathlib.Core.Path.{◌≡◌, ap, ◌∙◌}
use native.Mathlib.Nat.{
  pow-suc, pow-zero, one-le-pow, pow-le-pow_right, mul_assoc, mul-one, add-zero, add-suc,
}
use native.Mathlib.Omega.{arith}

pub pow10-add : (a b : ℕ) → 10 ^ (a + b) ≡ 10 ^ a * 10 ^ b
pow10-add a zero = rw (add-zero, pow-zero, mul-one)
pow10-add a (suc b) = rw (add-suc, pow-suc, pow-suc, pow10-add a b) (mul_assoc _ _ _)

pub pow10_pos : (a : ℕ) → 0 < 10 ^ a
pow10_pos a = one-le-pow a 10 (omega arith)

pub pow10_mono : (a b : ℕ) → a ≤ b → 10 ^ a ≤ 10 ^ b
pow10_mono a b h = pow-le-pow_right (omega arith) h

-- A power splits at any smaller exponent.
pub pow10_split : (a s : ℕ) → a ≤ s → 10 ^ s ≡ 10 ^ a * 10 ^ (s - a)
pow10_split a s h =
    let e : s ≡ a + (s - a) = omega arith in ap (λ (t : ℕ). 10 ^ t) e ∙ pow10-add a (s - a)
