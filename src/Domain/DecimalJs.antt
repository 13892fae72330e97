-- ===== src/Domain/DecimalJs.antt =====
-- The third-party package `decimal.js`, as the parameter of everything that computes with decimals:
-- the operations that `src/domain/monetary/decimal.ts` and its callers use, and what its
-- documentation says of them.
use landed_compare.Prelude.{
  ℕ, ◌+◌, ◌*◌, ◌-◌, ◌/◌, ◌^◌, ◌≤◌, ◌<◌, Ordering, String, ◌≡◌, ◌↔◌, Bool, true, false, Option, some,
}
use landed_compare.Prelude.Text.{is_blank}
use landed_compare.Prelude.Int.{
  ℤ, pos, neg_part, pos_part, ◌+ℤ◌, ◌-ℤ◌, ◌*ℤ◌, neg_ℤ, magnitude, is_neg, compare_ℤ, scale_ℤ,
  on_magnitude,
}

-- `Decimal.ROUND_HALF_UP`, `Decimal.ROUND_DOWN`.
pub data Rounding : Type 0 where
  half_up down : Rounding

-- The instance methods in use. A number in front is the `precision` of the constructor on which the
-- operation is evaluated; the methods without one do not depend on it.
pub record DecimalJs (D : Type 0) : Type 0 where
  pub of_text : String → Option D
  pub of_number : ℕ → D
  pub is_finite : D → Bool
  pub plus : ℕ → D → D → D
  pub minus : ℕ → D → D → D
  pub times : ℕ → D → D → D
  pub divided_by : ℕ → D → D → D
  pub to_power : ℕ → D → ℕ → D
  pub to_decimal_places : ℕ → Rounding → D → D
  pub ceil : D → D
  pub compared_to : D → D → Ordering
  pub is_zero : D → Bool
  pub is_negative : D → Bool
  pub abs : D → D
  pub negated : D → D
  pub exponent : D → ℤ
  pub precision : D → ℕ
  pub decimal_places : D → ℕ
  pub to_fixed : D → String
  pub to_fixed_at : ℕ → D → String

-- A number with at most `p` significant digits: those of `m`, and zeros behind them.
abbrev pub Representable : ℕ → ℕ → Type 0
Representable p n = (m k : ℕ) × (m < 10 ^ p) × (n ≡ m * 10 ^ k)

-- Rounding of a magnitude to whole multiples of a unit, counted in that unit.
abbrev pub round_units : Rounding → ℕ → ℕ → ℕ
round_units Rounding.half_up u n = (n + u / 2) / u
round_units Rounding.down u n = n / u

-- A finite decimal is a whole number over a power of ten. `numerator` is that number at the decimal's
-- own number of places, and `at s` at any larger number of places.
module _ {D : Type 0} ⦃j : DecimalJs D⦄ (numerator : D → ℤ) where
  abbrev pub at : ℕ → D → ℤ
  at s d = scale_ℤ (numerator d) (10 ^ (s - j.decimal_places d))

  -- The value of `d` is `z / 10 ^ s`.
  abbrev pub Denotes : ℕ → D → ℤ → Type 0
  Denotes s d z = (j.decimal_places d ≤ s) × (at s d ≡ z)

-- What the documentation of `decimal.js` says: an operation rounds its exact result to `precision`
-- significant digits, so a result that has no more is exact; `toDecimalPlaces` rounds the magnitude;
-- `e` and `precision()` bound the digits; `toFixed()` prints every digit and the constructor reads
-- every digit.
pub record IsDecimalJs (D : Type 0) ⦃j : DecimalJs D⦄ : Type 0 where
  pub numerator : D → ℤ
  pub plus_law :
      (p s : ℕ) (a b : D)
      → j.decimal_places a ≤ s
      → j.decimal_places b ≤ s
      → Representable p (magnitude (at numerator s a +ℤ at numerator s b))
      → Denotes numerator s (j.plus p a b) (at numerator s a +ℤ at numerator s b)
  pub minus_law :
      (p s : ℕ) (a b : D)
      → j.decimal_places a ≤ s
      → j.decimal_places b ≤ s
      → Representable p (magnitude (at numerator s a -ℤ at numerator s b))
      → Denotes numerator s (j.minus p a b) (at numerator s a -ℤ at numerator s b)
  pub times_law :
      (p : ℕ) (a b : D)
      → Representable p (magnitude (numerator a *ℤ numerator b))
      → Denotes numerator
          (j.decimal_places a + j.decimal_places b)
          (j.times p a b)
          (numerator a *ℤ numerator b)
  pub round_law :
      (m s : ℕ) (r : Rounding) (d : D)
      → j.decimal_places d ≤ s
      → m ≤ s
      → Denotes numerator m
          (j.to_decimal_places m r d)
          (on_magnitude (round_units r (10 ^ (s - m))) (at numerator s d))
  pub compared_law :
      (s : ℕ) (a b : D)
      → j.decimal_places a ≤ s
      → j.decimal_places b ≤ s
      → j.compared_to a b ≡ compare_ℤ (at numerator s a) (at numerator s b)
  pub zero_law : (d : D) → (j.is_zero d ≡ true) ↔ (numerator d ≡ pos 0)
  pub sign_law : (d : D) → j.is_zero d ≡ false → j.is_negative d ≡ is_neg (numerator d)
  pub abs_law :
      (d : D) → Denotes numerator (j.decimal_places d) (j.abs d) (pos (magnitude (numerator d)))
  pub negated_law :
      (d : D) → Denotes numerator (j.decimal_places d) (j.negated d) (neg_ℤ (numerator d))
  -- `10 ^ e` is the first power of ten that the magnitude reaches.
  pub exponent_law :
      (d : D)
      → j.is_zero d ≡ false
      → magnitude (numerator d) * 10 ^ neg_part (j.exponent d)
        < 10 ^ (j.decimal_places d + 1 + pos_part (j.exponent d))
  pub precision_law : (d : D) → Representable (j.precision d) (magnitude (numerator d))
  pub text_law :
      (d : D)
      → (d' : D) × (is_blank (j.to_fixed d) ≡ false)
        × (j.of_text (j.to_fixed d) ≡ some d')
        × (j.is_finite d' ≡ true)
        × Denotes numerator (j.decimal_places d) d' (numerator d)
  pub zero_text_law :
      (d' : D) × (j.of_text "0" ≡ some d')
      × (j.is_finite d' ≡ true)
      × Denotes numerator 0 d' (pos 0)
