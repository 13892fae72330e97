-- ===== src/Domain/Money.antt =====
-- `src/domain/monetary/Money.ts`: an exact amount in a currency.
pub mod Laws
pub mod Sums
use landed_compare.Prelude.{
  ℕ, String, Bool, true, false, not, ◌&&◌, Ordering, is_lt, is_gt, is_eq, str_eq,
}
use landed_compare.Errors.{Error, Result, ok, err, ◌>>=◌, ◌>>◌, throw_if, currency_mismatch}
use landed_compare.Domain.DecimalJs.{DecimalJs}
use landed_compare.Domain.Decimal
use landed_compare.Domain.Decimal.{
  parse_exact_decimal, add_exact, subtract_exact, multiply_exact, truncate_toward_zero,
}
use landed_compare.Domain.CurrencyCode.{parse_currency_code}

pub record Money (D : Type 0) : Type 0 where
  pub amount : D
  pub currency : String

module _ {D : Type 0} ⦃j : DecimalJs D⦄ where
  unfoldable pub from_string : String → String → Result (Money D)
  from_string amount currency = do
    value ← parse_exact_decimal amount
    code ← parse_currency_code currency
    ok (record { amount = value; currency = code })

  unfoldable pub zero : String → Result (Money D)
  unfolding from_string
  zero currency = from_string "0" currency

  unfoldable pub assert_same_currency : Money D → Money D → Result (Unit {0})
  assert_same_currency a b = throw_if (not (str_eq a.currency b.currency)) currency_mismatch

  unfoldable pub add : Money D → Money D → Result (Money D)
  unfolding assert_same_currency
  add a b = do
    assert_same_currency a b
    ok (record { amount = add_exact a.amount b.amount; currency = a.currency })

  unfoldable pub subtract : Money D → Money D → Result (Money D)
  unfolding assert_same_currency
  subtract a b = do
    assert_same_currency a b
    ok (record { amount = subtract_exact a.amount b.amount; currency = a.currency })

  unfoldable pub multiply : Money D → String → Result (Money D)
  multiply a factor = do
    f ← parse_exact_decimal factor
    ok (record { amount = multiply_exact a.amount f; currency = a.currency })

  unfoldable pub compare_to : Money D → Money D → Result Ordering
  unfolding assert_same_currency
  compare_to a b = do assert_same_currency a b; ok (j.compared_to a.amount b.amount)

  unfoldable pub equals : Money D → Money D → Bool
  equals a b = str_eq a.currency b.currency && is_eq (j.compared_to a.amount b.amount)

  unfoldable pub is_less_than : Money D → Money D → Result Bool
  unfolding compare_to
  is_less_than a b = do o ← compare_to a b; ok (is_lt o)

  unfoldable pub is_greater_than : Money D → Money D → Result Bool
  unfolding compare_to
  is_greater_than a b = do o ← compare_to a b; ok (is_gt o)

  unfoldable pub is_zero : Money D → Bool
  is_zero a = j.is_zero a.amount

  unfoldable pub is_negative : Money D → Bool
  is_negative a = j.is_negative a.amount && not (j.is_zero a.amount)

  -- `Decimal#isPositive` is the absence of the sign.
  unfoldable pub is_positive : Money D → Bool
  is_positive a = not (j.is_negative a.amount) && not (j.is_zero a.amount)

  unfoldable pub abs : Money D → Money D
  abs a = record a { amount = j.abs a.amount }

  unfoldable pub negate : Money D → Money D
  negate a = record a { amount = j.negated a.amount }

  unfoldable pub round_to_minor_unit : Money D → ℕ → Money D
  round_to_minor_unit a digits = record a { amount = Decimal.round_half_up a.amount digits }

  unfoldable pub truncate_to_minor_unit : Money D → ℕ → Money D
  truncate_to_minor_unit a digits = record a { amount = truncate_toward_zero a.amount digits }

  unfoldable pub exceeds_settlement_precision : Money D → ℕ → Bool
  exceeds_settlement_precision a digits = Decimal.exceeds_settlement_precision a.amount digits

  unfoldable pub to_decimal_string : Money D → String
  to_decimal_string a = j.to_fixed a.amount
