-- ===== src/Calculation/Merchandise.antt =====
-- `src/calculation/MerchandiseCalculation.ts`: line subtotals and a quote's merchandise total.
use landed_compare.Prelude.{String, List}
use landed_compare.Errors.{Result, ok, ◌>>=◌, traverse, reduce}
use landed_compare.Domain.DecimalJs.{DecimalJs}
use landed_compare.Domain.CurrencyCode.{parse_currency_code}
use landed_compare.Domain.Money
use landed_compare.Domain.Money.{Money}
use landed_compare.Domain.Quantity
use landed_compare.Domain.Quantity.{Quantity}
use landed_compare.Calculation.ExchangeRate.{ExchangeRateTable, convert_to_base_currency}

pub record MerchandiseLine (D : Type 0) : Type 0 where
  pub unit_price : Money D
  pub calculation_quantity : Quantity D

pub record QuoteMerchandise (D : Type 0) : Type 0 where
  pub line_subtotals : List (Money D)
  pub quote_currency_total : Money D
  pub base_currency_total : Money D

module _ {D : Type 0} ⦃j : DecimalJs D⦄ where
  unfoldable pub calculate_line_subtotal : MerchandiseLine D → Result (Money D)
  calculate_line_subtotal line =
      Money.multiply line.unit_price (Quantity.to_decimal_string line.calculation_quantity)

  unfoldable pub calculate_merchandise_total : List (Money D) → String → Result (Money D)
  calculate_merchandise_total subtotals quote_currency = do
    currency ← parse_currency_code quote_currency
    start ← Money.zero currency
    reduce Money.add start subtotals

  unfoldable pub calculate_quote_merchandise :
      List (MerchandiseLine D) → String → ExchangeRateTable D → Result (QuoteMerchandise D)
  calculate_quote_merchandise lines quote_currency table = do
    subtotals ← traverse calculate_line_subtotal lines
    total ← calculate_merchandise_total subtotals quote_currency
    converted ← convert_to_base_currency total table
    ok (record {
      line_subtotals = subtotals;
      quote_currency_total = total;
      base_currency_total = converted;
    })
