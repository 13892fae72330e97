-- ===== src/Domain/Decimal/Exact.antt =====
-- The derived precisions of `decimal.ts` make sums, differences and products exact.
use landed_compare.Prelude.{ℕ, suc, ◌+◌, ◌*◌, ◌-◌, ◌^◌, ◌≤◌, ◌<◌, ◌≡◌, max, arith}
use landed_compare.Prelude.Int.{
  ℤ, ◌+ℤ◌, ◌-ℤ◌, ◌*ℤ◌, magnitude, magnitude-+ℤ, magnitude--ℤ, magnitude-*ℤ, magnitude-scale_ℤ,
  scale_ℤ, scale_ℤ-+ℤ, scale_ℤ--ℤ, *ℤ-scale_ℤ,
}
use landed_compare.Prelude.Powers.{pow10_mono, pow10-add}
use landed_compare.Domain.DecimalJs.{DecimalJs, IsDecimalJs, Denotes, at, Representable}
use landed_compare.Domain.Decimal.{
  integer_digits_of, decimal_at, additive_precision_of, add_exact, subtract_exact, multiply_exact,
}
use landed_compare.Domain.Decimal.Digits.{magnitude-at-lt, at-at, Denotes-widen}
use native.Mathlib.Nat.{pow-suc, mul-le-mul, le_trans}

-- Two addends below a power of ten stay below the next one.
sum-lt : (a b k m n x : ℕ) → x ≤ a + b → a < 10 ^ m → b < 10 ^ n → m ≤ k → n ≤ k → x < 10 ^ (k + 1)
sum-lt a b k m n x h ha hb hm hn =
    let e : k + 1 ≡ suc k = omega arith in
    rw (e, pow-suc) (omega (arith, pow10_mono m k hm, pow10_mono n k hn))

product-lt : (m n p q : ℕ) → m < 10 ^ p → n < 10 ^ q → m * n < 10 ^ (p + q)
product-lt m n p q h k = rw pow10-add (omega (arith, mul-le-mul h k))

-- A product has at most the digits of its factors together.
Representable-* :
    (p q m n : ℕ) → Representable p m → Representable q n → Representable (p + q) (m * n)
Representable-* p q m n (x, i, hx, ex) (y, k, hy, ey) =
    (x * y, i + k, product-lt x y p q hx hy, rw (ex, ey, pow10-add) (omega arith))

Representable-mono : (p q n : ℕ) → p ≤ q → Representable p n → Representable q n
Representable-mono p q n h (m, k, lt, e) = (m, k, le_trans lt (pow10_mono p q h), e)

module _ {D : Type 0} ⦃j : DecimalJs D⦄ (laws : IsDecimalJs D) where
  open laws use {numerator, plus_law, minus_law, times_law, precision_law}

  -- The exact sum or difference has no more digits than `additivePrecisionOf` counts, at every scale.
  additive-Representable :
      (a b : D) (s : ℕ) (op : ℤ → ℤ → ℤ)
      → ((x y : ℤ) → magnitude (op x y) ≤ magnitude x + magnitude y)
      → ((x y : ℤ) (k : ℕ) → scale_ℤ (op x y) k ≡ op (scale_ℤ x k) (scale_ℤ y k))
      → j.decimal_places a ≤ s
      → j.decimal_places b ≤ s
      → Representable
          (decimal_at (additive_precision_of a b))
          (magnitude (op (at numerator s a) (at numerator s b)))
  unfolding additive_precision_of
  additive-Representable a b s op bound linear ha hb =
      (magnitude (op (at numerator t a) (at numerator t b)), s - t, small, scaled)
    where
      t : ℕ
      t = max (j.decimal_places a) (j.decimal_places b)

      small :
          magnitude (op (at numerator t a) (at numerator t b))
          < 10 ^ decimal_at (additive_precision_of a b)
      small =
          le_trans
            (sum-lt _ _ (max (integer_digits_of a) (integer_digits_of b) + t) _ _ _ (bound _ _)
              (magnitude-at-lt laws a t (omega arith)) (magnitude-at-lt laws b t (omega arith))
              (omega arith) (omega arith))
            (pow10_mono _ _ (omega arith))

      scaled :
          magnitude (op (at numerator s a) (at numerator s b))
          ≡ magnitude (op (at numerator t a) (at numerator t b)) * 10 ^ (s - t)
      scaled =
          rw
            (
              at-at numerator a t s (omega arith) (omega arith),
              at-at numerator b t s (omega arith) (omega arith),
              ← linear _ _ (10 ^ (s - t)),
            )
            (magnitude-scale_ℤ _ _)

  -- `addExact` is exact: the sum of the values at any scale that holds both.
  pub add_exact-Denotes :
      (s : ℕ) (a b : D) {x y : ℤ}
      → Denotes numerator s a x
      → Denotes numerator s b y
      → Denotes numerator s (add_exact a b) (x +ℤ y)
  unfolding add_exact
  add_exact-Denotes s a b (ha, ex) (hb, ey) =
      rw (← ex, ← ey)
        (plus_law _ s a b ha hb (additive-Representable a b s ◌+ℤ◌ magnitude-+ℤ scale_ℤ-+ℤ ha hb))

  -- `subtractExact` is exact.
  pub subtract_exact-Denotes :
      (s : ℕ) (a b : D) {x y : ℤ}
      → Denotes numerator s a x
      → Denotes numerator s b y
      → Denotes numerator s (subtract_exact a b) (x -ℤ y)
  unfolding subtract_exact
  subtract_exact-Denotes s a b (ha, ex) (hb, ey) =
      rw (← ex, ← ey)
        (minus_law _ s a b ha hb (additive-Representable a b s ◌-ℤ◌ magnitude--ℤ scale_ℤ--ℤ ha hb))

  -- `multiplyExact` is exact, at the sum of two scales that hold its operands.
  pub multiply_exact-Denotes :
      (s t : ℕ) (a b : D) {x y : ℤ}
      → Denotes numerator s a x
      → Denotes numerator t b y
      → Denotes numerator (s + t) (multiply_exact a b) (x *ℤ y)
  unfolding multiply_exact
  multiply_exact-Denotes s t a b (ha, ex) (hb, ey) =
      let p = j.decimal_places a in
      let q = j.decimal_places b in
      let law = times_law (decimal_at (j.precision a + j.precision b)) a b digits in
      let e : s + t - (p + q) ≡ s - p + (t - q) = omega arith in
      rw (← ex, ← ey, *ℤ-scale_ℤ, ← pow10-add, ← e)
        (Denotes-widen laws (p + q) (s + t) _ (omega arith) law)
    where
      digits :
          Representable
            (decimal_at (j.precision a + j.precision b))
            (magnitude (numerator a *ℤ numerator b))
      digits = rw magnitude-*ℤ (
          Representable-mono _ _ _ (omega arith)
            (Representable-* _ _ _ _ (precision_law a) (precision_law b)))
