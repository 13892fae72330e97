-- ===== src/Domain/Decimal.antt =====
-- `src/domain/monetary/decimal.ts`: exact decimal arithmetic at derived precisions.
pub mod Digits
pub mod Exact
use landed_compare.Prelude.{
  ℕ, suc, ◌+◌, ◌≡◌, String, Bool, true, false, not, Option, none, some, max, ltb, if◌then◌else◌,
}
use landed_compare.Prelude.Int.{ℤ, pos, negsuc}
use landed_compare.Prelude.Text.{is_blank}
use landed_compare.Errors.{Error, Result, ok, err, invalid_decimal}
use landed_compare.Domain.DecimalJs.{DecimalJs, Rounding, half_up, down}

abbrev pub decimal_precision : ℕ
decimal_precision = 34

abbrev pub precision_guard_digits : ℕ
precision_guard_digits = 10

-- The precision of the constructor that `decimalAt` returns.
abbrev pub decimal_at : ℕ → ℕ
decimal_at required = max decimal_precision required

-- `Math.max(1, e + 1)`
abbrev pub integer_digits_at : ℤ → ℕ
integer_digits_at (pos e) = max 1 (e + 1)
integer_digits_at (negsuc e) = 1

module _ {D : Type 0} ⦃j : DecimalJs D⦄ where
  finite_only : Option D → Result D
  finite_only none = err invalid_decimal
  finite_only (some d) = if j.is_finite d then ok d else err invalid_decimal

  unfoldable pub parse_exact_decimal : String → Result D
  unfolding finite_only
  parse_exact_decimal text =
      if is_blank text then err invalid_decimal else finite_only (j.of_text text)

  unfoldable pub round_half_up : D → ℕ → D
  round_half_up value places = j.to_decimal_places places half_up value

  unfoldable pub truncate_toward_zero : D → ℕ → D
  truncate_toward_zero value places = j.to_decimal_places places down value

  unfoldable pub integer_digits_of : D → ℕ
  integer_digits_of value = if j.is_zero value then 1 else integer_digits_at (j.exponent value)

  unfoldable pub total_digits_of : D → ℕ
  total_digits_of value = integer_digits_of value + max 0 (j.decimal_places value)

  unfoldable pub multiply_exact : D → D → D
  multiply_exact a b = j.times (decimal_at (j.precision a + j.precision b)) a b

  unfoldable pub additive_precision_of : D → D → ℕ
  additive_precision_of a b =
      max (integer_digits_of a) (integer_digits_of b)
      + max (j.decimal_places a) (j.decimal_places b)
      + 1

  unfoldable pub add_exact : D → D → D
  add_exact a b = j.plus (decimal_at (additive_precision_of a b)) a b

  unfoldable pub subtract_exact : D → D → D
  subtract_exact a b = j.minus (decimal_at (additive_precision_of a b)) a b

  unfoldable pub divide_by_power_of_ten_exact : D → ℕ → D
  divide_by_power_of_ten_exact value exponent =
      let p = decimal_at (j.precision value) in
      j.divided_by p value (j.to_power p (j.of_number 10) exponent)

  unfoldable pub divide_ceil : D → D → D
  divide_ceil numerator divisor =
      let p =
        decimal_at (total_digits_of numerator + total_digits_of divisor + precision_guard_digits) in
      j.ceil (j.divided_by p numerator divisor)

  unfoldable pub proportional_share : D → D → D → ℕ → D
  proportional_share total weight total_weight places =
      let p = decimal_at (
        total_digits_of total
        + total_digits_of weight
        + total_digits_of total_weight
        + places
        + precision_guard_digits) in
      j.divided_by p (j.times p total weight) total_weight

  unfoldable pub exceeds_settlement_precision : D → ℕ → Bool
  exceeds_settlement_precision value places =
      ltb decimal_precision (integer_digits_of value + places)
