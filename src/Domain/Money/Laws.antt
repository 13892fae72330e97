-- ===== src/Domain/Money/Laws.antt =====
-- What the operations of `src/domain/monetary/Money.ts` compute, given the documented behaviour of
-- `decimal.js`.
use landed_compare.Prelude.{
  ℕ, zero, suc, ◌↔◌, ◌-◌, ◌^◌, ◌≤◌, ◌<◌, ◌≡◌, sym, ◌∙◌, String, true, arith, eq_iff,
}
use landed_compare.Prelude.Int.{
  ℤ, pos, negsuc, ◌+ℤ◌, ◌-ℤ◌, is_neg, is_pos, is_null, compare_ℤ, on_magnitude, scale_ℤ,
}
use landed_compare.Prelude.Powers.{pow10_pos}
use native.Mathlib.Nat.{le-mul_of_pos_right}
use landed_compare.Errors.{ok}
use landed_compare.Domain.DecimalJs.{
  DecimalJs, IsDecimalJs, Denotes, at, half_up, down, round_units,
}
use landed_compare.Domain.Decimal.Digits.{Denotes-widen}
use landed_compare.Domain.Decimal.Exact.{add_exact-Denotes, subtract_exact-Denotes}
use landed_compare.Domain.Decimal.{round_half_up, truncate_toward_zero}
use landed_compare.Domain.Money.{
  Money, assert_same_currency, add, subtract, compare_to, is_zero, is_negative, is_positive,
  round_to_minor_unit, truncate_to_minor_unit,
}

-- Multiplying by a positive factor keeps the sign.
signs-scale :
    (z : ℤ) (k : ℕ)
    → 0 < k
    → (is_null (scale_ℤ z k) ≡ is_null z)
      × (is_neg (scale_ℤ z k) ≡ is_neg z)
      × (is_pos (scale_ℤ z k) ≡ is_pos z)
unfolding scale_ℤ
signs-scale (pos zero) k h = ground arith
signs-scale (pos (suc n)) k h = ground (arith, le-mul_of_pos_right (suc n) h)
signs-scale (negsuc n) k h = ground (arith, le-mul_of_pos_right (suc n) h)

is_null_iff : (z : ℤ) → (is_null z ≡ true) ↔ (z ≡ pos 0)
is_null_iff z = ground arith

module _ {D : Type 0} ⦃j : DecimalJs D⦄ (laws : IsDecimalJs D) where
  open laws use {numerator, zero_law, sign_law, round_law, compared_law, abs_law, negated_law}

  -- An amount of `z / 10 ^ s` in the currency `c`.
  abbrev pub Worth : ℕ → String → Money D → ℤ → Type 0
  Worth s c m z = (m.currency ≡ c) × Denotes numerator s m.amount z

  -- The signs of the numerator, and so those at every scale.
  signs_at :
      (s : ℕ) (d : D) (x : ℤ)
      → at numerator s d ≡ x
      → (is_null (numerator d) ≡ is_null x)
        × (is_neg (numerator d) ≡ is_neg x)
        × (is_pos (numerator d) ≡ is_pos x)
  signs_at s d x e =
      let signs = signs-scale (numerator d) (10 ^ (s - j.decimal_places d)) (pow10_pos _) in
      rw (← e) (sym signs.0, sym signs.1, sym signs.2)

  zero_lem : (d : D) → j.is_zero d ≡ is_null (numerator d)
  zero_lem d = ground (arith, zero_law d, is_null_iff (numerator d))

  same_currency :
      (c : String) (a b : Money D)
      → a.currency ≡ c
      → b.currency ≡ c
      → assert_same_currency a b ≡ ok tt
  unfolding assert_same_currency
  same_currency c a b p q = ground (arith, eq_iff a.currency b.currency)

  pub add-Worth :
      (s : ℕ) (c : String) (a b : Money D) (x y : ℤ)
      → Worth s c a x
      → Worth s c b y
      → (m : Money D) × (add a b ≡ ok m) × Worth s c m (x +ℤ y)
  unfolding add
  add-Worth s c a b x y (p, h) (q, k) =
      (_, rw (same_currency c a b p q), (p, add_exact-Denotes laws s _ _ h k))

  pub subtract-Worth :
      (s : ℕ) (c : String) (a b : Money D) (x y : ℤ)
      → Worth s c a x
      → Worth s c b y
      → (m : Money D) × (subtract a b ≡ ok m) × Worth s c m (x -ℤ y)
  unfolding subtract
  subtract-Worth s c a b x y (p, h) (q, k) =
      (_, rw (same_currency c a b p q), (p, subtract_exact-Denotes laws s _ _ h k))

  pub compare_to-Worth :
      (s : ℕ) (c : String) (a b : Money D) (x y : ℤ)
      → Worth s c a x
      → Worth s c b y
      → compare_to a b ≡ ok (compare_ℤ x y)
  unfolding compare_to
  compare_to-Worth s c a b x y (p, (h, e)) (q, (k, f)) =
      rw (same_currency c a b p q, compared_law s a.amount b.amount h k, e, f)

  pub is_zero-Worth :
      (s : ℕ) (c : String) (a : Money D) (x : ℤ) → Worth s c a x → is_zero a ≡ is_null x
  unfolding is_zero
  is_zero-Worth s c a x (_, (h, e)) = zero_lem a.amount ∙ (signs_at s _ x e).0

  pub is_negative-Worth :
      (s : ℕ) (c : String) (a : Money D) (x : ℤ) → Worth s c a x → is_negative a ≡ is_neg x
  unfolding is_negative
  is_negative-Worth s c a x (_, (h, e)) =
      ground (arith, zero_lem a.amount, sign_law a.amount, signs_at s _ x e)

  pub is_positive-Worth :
      (s : ℕ) (c : String) (a : Money D) (x : ℤ) → Worth s c a x → is_positive a ≡ is_pos x
  unfolding is_positive
  is_positive-Worth s c a x (_, (h, e)) =
      ground (arith, zero_lem a.amount, sign_law a.amount, signs_at s _ x e)

  pub round-Worth :
      (m s : ℕ) (c : String) (a : Money D) (x : ℤ)
      → m ≤ s
      → Worth s c a x
      → Worth m c (round_to_minor_unit a m) (on_magnitude (round_units half_up (10 ^ (s - m))) x)
  unfolding round_to_minor_unit round_half_up
  round-Worth m s c a x le (p, (h, e)) = (p, rw (← e) (round_law m s half_up a.amount h le))

  pub truncate-Worth :
      (m s : ℕ) (c : String) (a : Money D) (x : ℤ)
      → m ≤ s
      → Worth s c a x
      → Worth m c (truncate_to_minor_unit a m) (on_magnitude (round_units down (10 ^ (s - m))) x)
  unfolding truncate_to_minor_unit truncate_toward_zero
  truncate-Worth m s c a x le (p, (h, e)) = (p, rw (← e) (round_law m s down a.amount h le))

  -- An amount at one scale is its multiple at a larger one.
  pub Worth-widen :
      (t s : ℕ) (c : String) (a : Money D) (x : ℤ)
      → t ≤ s
      → Worth t c a x
      → Worth s c a (scale_ℤ x (10 ^ (s - t)))
  Worth-widen t s c a x le (p, d) = (p, Denotes-widen laws t s a.amount le d)
