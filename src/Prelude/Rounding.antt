-- ===== src/Prelude/Rounding.antt =====
-- Rounding to whole units, half up, on magnitudes.
use Prim.Native.Nat.{ℕ, ◌+◌, ◌*◌, ◌/◌, ◌≤◌, ◌<◌}
use mathlib.Core.Path.{◌≡◌}
use native.Mathlib.Nat.{div-add-mod, mod-lt, lt_of_mul-lt-mul_left}
use native.Mathlib.Omega.{arith}

-- `n / u` to the nearest whole number, a half upwards.
abbrev pub nearest : ℕ → ℕ → ℕ
nearest u n = (n + u / 2) / u

pub nearest_bounds :
    (u n : ℕ) → 0 < u → (u * nearest u n ≤ n + u / 2) × (n + u / 2 < u * nearest u n + u)
nearest_bounds u n h = let total = n + u / 2 in omega (arith, div-add-mod total u, mod-lt total h)

pub nearest_mono : (u n k : ℕ) → 0 < u → n ≤ k → nearest u n ≤ nearest u k
nearest_mono u n k h le =
    lt→le (lt_of_mul-lt-mul_left u (omega (arith, nearest_bounds u n h, nearest_bounds u k h)))
  where
    lt→le : nearest u n < nearest u k + 1 → nearest u n ≤ nearest u k
    lt→le lt = omega arith

pub nearest_zero : (u : ℕ) → 0 < u → nearest u 0 ≡ 0
nearest_zero u h =
    let small : nearest u 0 < 1 = lt_of_mul-lt-mul_left u (omega (arith, nearest_bounds u 0 h)) in
    omega arith

-- Two splits of one sum round to sums that differ by one unit at most.
pub nearest_residual :
    (u l n m p : ℕ)
    → 0 < u
    → l + n ≡ m + p
    → (nearest u l + nearest u n ≤ nearest u m + nearest u p + 1)
      × (nearest u m + nearest u p ≤ nearest u l + nearest u n + 1)
nearest_residual u l n m p h e =
    let bl = nearest_bounds u l h in
    let bn = nearest_bounds u n h in
    let bm = nearest_bounds u m h in
    let bp = nearest_bounds u p h in
    let up : nearest u l + nearest u n < nearest u m + nearest u p + 2 =
      lt_of_mul-lt-mul_left u (omega arith) in
    let down : nearest u m + nearest u p < nearest u l + nearest u n + 2 =
      lt_of_mul-lt-mul_left u (omega arith) in
    omega arith
