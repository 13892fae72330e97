-- ===== src/Calculation/Percentage.antt =====
-- `src/calculation/Percentage.ts`: "5" is 5%, a factor of 0.05.
use landed_compare.Prelude.{ℕ, String, Bool, not, ◌&&◌, is_gt}
use landed_compare.Errors.{Result, ok, ◌>>=◌, ◌>>◌, throw_if, invalid_percentage}
use landed_compare.Domain.DecimalJs.{DecimalJs}
use landed_compare.Domain.Decimal.{parse_exact_decimal, divide_by_power_of_ten_exact}
use landed_compare.Domain.Money
use landed_compare.Domain.Money.{Money}

abbrev pub percent_exponent : ℕ
percent_exponent = 2

pub record Percentage (D : Type 0) : Type 0 where
  pub rate : D

module _ {D : Type 0} ⦃j : DecimalJs D⦄ where
  unfoldable pub from_string : String → Result (Percentage D)
  from_string value = do
    rate ← parse_exact_decimal value
    throw_if (j.is_negative rate && not (j.is_zero rate)) invalid_percentage
    ok (record { rate = rate })

  -- `ONE_HUNDRED` is parsed when the module loads.
  unfoldable pub exceeds_one_hundred : Percentage D → Result Bool
  exceeds_one_hundred p = do
    hundred ← parse_exact_decimal "100"
    ok (is_gt (j.compared_to p.rate hundred))

  unfoldable pub to_decimal_string : Percentage D → String
  to_decimal_string p = j.to_fixed p.rate

  unfoldable pub to_factor_string : Percentage D → String
  to_factor_string p = j.to_fixed (divide_by_power_of_ten_exact p.rate percent_exponent)

  unfoldable pub apply_to : Percentage D → Money D → Result (Money D)
  apply_to p base = Money.multiply base (to_factor_string p)
