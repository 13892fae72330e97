-- ===== src/Calculation/ExchangeRate.antt =====
-- `src/calculation/ExchangeRate.ts`, `ExchangeRateTable.ts` and `CurrencyConversion.ts`: manual rates
-- into one base currency.
use landed_compare.Prelude.{String, not, ◌||◌, Option, none, some, List, [], str_eq, if◌then◌else◌}
use landed_compare.Prelude.Maps.{lookup, insert}
use landed_compare.Errors.{
  Result, ok, err, ◌>>=◌, ◌>>◌, throw_if, reduce, invalid_exchange_rate, missing_exchange_rate,
  currency_mismatch,
}
use landed_compare.Domain.DecimalJs.{DecimalJs}
use landed_compare.Domain.Decimal.{parse_exact_decimal, multiply_exact}
use landed_compare.Domain.CurrencyCode.{parse_currency_code}
use landed_compare.Domain.Money
use landed_compare.Domain.Money.{Money}

-- One unit of `from` is `rate` units of `to`.
pub record ExchangeRate (D : Type 0) : Type 0 where
  pub from : String
  pub to : String
  pub rate : D

pub record ExchangeRateTable (D : Type 0) : Type 0 where
  pub base : String
  pub rates : List (String × ExchangeRate D)

module _ {D : Type 0} ⦃j : DecimalJs D⦄ where
  unfoldable pub from_string : String → String → String → Result (ExchangeRate D)
  from_string from to rate = do
    value ← parse_exact_decimal rate
    throw_if (j.is_zero value || j.is_negative value) invalid_exchange_rate
    f ← parse_currency_code from
    t ← parse_currency_code to
    ok (record { from = f; to = t; rate = value })

  -- One round of the loop of `create`; the last rate for a currency wins.
  add_rate :
      String
      → List (String × ExchangeRate D)
      → ExchangeRate D
      → Result (List (String × ExchangeRate D))
  add_rate base known rate =
      throw_if (not (str_eq rate.to base)) currency_mismatch >> ok (insert rate.from rate known)

  unfoldable pub create : String → List (ExchangeRate D) → Result (ExchangeRateTable D)
  unfolding add_rate
  create base_currency rates = do
    base ← parse_currency_code base_currency
    known ← reduce (add_rate base) [] rates
    ok (record { base = base; rates = known })

  found : Option (ExchangeRate D) → Result (ExchangeRate D)
  found none = err missing_exchange_rate
  found (some rate) = ok rate

  unfoldable pub get_rate : ExchangeRateTable D → String → Result (ExchangeRate D)
  unfolding found
  get_rate table from_currency = do
    from ← parse_currency_code from_currency
    found (lookup from table.rates)

  unfoldable pub convert_to_base_currency : Money D → ExchangeRateTable D → Result (Money D)
  convert_to_base_currency a table = if str_eq a.currency table.base then ok a else (do
    rate ← get_rate table a.currency
    amount ← parse_exact_decimal (Money.to_decimal_string a)
    factor ← parse_exact_decimal (j.to_fixed rate.rate)
    Money.from_string (j.to_fixed (multiply_exact amount factor)) table.base)
