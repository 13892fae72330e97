-- ===== src/Domain/Decimal/Digits.antt =====
-- How many digits the operands and results of `decimal.ts` have.
use landed_compare.Prelude.{ℕ, suc, ◌+◌, ◌*◌, ◌-◌, ◌^◌, ◌≤◌, ◌<◌, ◌≡◌, arith, Bool-cases, inl, inr}
use landed_compare.Prelude.Int.{
  ℤ, pos, negsuc, magnitude, magnitude-scale_ℤ, scale_ℤ, scale_ℤ-scale_ℤ, pos_part, neg_part,
}
use landed_compare.Prelude.Powers.{pow10_pos, pow10-add}
use landed_compare.Domain.DecimalJs.{DecimalJs, IsDecimalJs, Denotes, at}
use landed_compare.Domain.Decimal.{integer_digits_of, integer_digits_at}
use native.Mathlib.Nat.{mul-le-mul, mul-lt-mul_of_pos_right, le_refl}

-- A bound by the exponent is one by the integer digits.
lt_of_exponent :
    (x : ℤ) (n places : ℕ)
    → n * 10 ^ neg_part x < 10 ^ (places + 1 + pos_part x)
    → n < 10 ^ (integer_digits_at x + places)
lt_of_exponent (pos e) n places h =
    let same : integer_digits_at (pos e) + places ≡ places + 1 + e = omega arith in
    rw same (omega (arith, h))
lt_of_exponent (negsuc e) n places h =
    let same : 1 + places ≡ places + 1 + 0 = omega arith in
    rw same (omega (arith, h, mul-le-mul (le_refl n) (pow10_pos (suc e))))

module _ {D : Type 0} ⦃j : DecimalJs D⦄ (numerator : D → ℤ) where
  -- The numerators at two scales.
  pub at-at :
      (d : D) (t s : ℕ)
      → j.decimal_places d ≤ t
      → t ≤ s
      → at numerator s d ≡ scale_ℤ (at numerator t d) (10 ^ (s - t))
  at-at d t s h k =
      let p = j.decimal_places d in
      let e : s - p ≡ t - p + (s - t) = omega arith in rw (scale_ℤ-scale_ℤ, e, pow10-add)

module _ {D : Type 0} ⦃j : DecimalJs D⦄ (laws : IsDecimalJs D) where
  open laws use {numerator, zero_law, exponent_law}

  -- Every decimal fits its integer digits and its decimal places.
  pub magnitude-lt-digits :
      (d : D) → magnitude (numerator d) < 10 ^ (integer_digits_of d + j.decimal_places d)
  unfolding integer_digits_of
  magnitude-lt-digits d = elim (Bool-cases (j.is_zero d)) [
    | inl e ↦ rw (e, (zero_law d).0 e) (pow10_pos _)
    | inr e ↦ rw e (lt_of_exponent (j.exponent d) _ _ (exponent_law d e))
  ]

  pub magnitude-at-lt :
      (d : D) (s : ℕ)
      → j.decimal_places d ≤ s
      → magnitude (at numerator s d) < 10 ^ (integer_digits_of d + s)
  magnitude-at-lt d s h =
      let p = j.decimal_places d in
      let e : integer_digits_of d + s ≡ integer_digits_of d + p + (s - p) = omega arith in
      rw (magnitude-scale_ℤ, e, pow10-add)
        (mul-lt-mul_of_pos_right (magnitude-lt-digits d) (pow10_pos (s - p)))

  -- A value at one scale is its multiple at a larger one.
  pub Denotes-widen :
      (t s : ℕ) (d : D) {z : ℤ}
      → t ≤ s
      → Denotes numerator t d z
      → Denotes numerator s d (scale_ℤ z (10 ^ (s - t)))
  Denotes-widen t s d le (h, e) = (omega arith, rw (← e) (at-at numerator d t s h le))
