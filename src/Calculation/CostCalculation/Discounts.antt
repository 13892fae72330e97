-- ===== src/Calculation/CostCalculation/Discounts.antt =====
-- `validateDiscountLineAllocations` of `src/calculation/CostCalculation.ts`: no discount takes more off
-- a line than the line is worth.
use landed_compare.Prelude.{
  ℕ, String, Bool, not, ◌&&◌, Option, none, some, List, [], ◌∷◌, map, if◌then◌else◌,
}
use landed_compare.Prelude.Maps.{lookup, insert}
use landed_compare.Errors.{
  Error, Result, ok, err, ◌>>=◌, ◌>>◌, throw_if, reduce, for_each, invalid_discount,
  discount_allocation_validation,
}
use landed_compare.Domain.DecimalJs.{DecimalJs}
use landed_compare.Domain.Money
use landed_compare.Domain.Money.{Money}
use landed_compare.Calculation.ExchangeRate.{ExchangeRateTable, convert_to_base_currency}
use landed_compare.Calculation.AdditionalCost.{is_discount}
use landed_compare.Calculation.Allocation.Weighting.{AllocationTarget}
use landed_compare.Calculation.Allocation.Split.{ExactShare, exact_allocation_shares}
use landed_compare.Calculation.CostCalculation.Entries.{AppliedCostEntry, no_repeats}
use landed_compare.Calculation.CostCalculation.Supplier.{CostResult}

-- A running amount for each line.
abbrev pub LineAmounts : Type 0 → Type 0
LineAmounts D = List (String × Money D)

-- An unusable weighting of a discount is a failed validation; other errors keep their meaning.
unfoldable pub as_validation_failure : {A : Type 0} → Result A → Result A
as_validation_failure (ok a) = ok a
as_validation_failure (err Error.invalid_allocation_base) = err discount_allocation_validation
as_validation_failure (err Error.incompatible_allocation_units) = err discount_allocation_validation
as_validation_failure (err e) = err e

module _ {D : Type 0} ⦃j : DecimalJs D⦄ where
  abbrev pub or_zero : Option (Money D) → Money D → Money D
  or_zero none zero = zero
  or_zero (some a) zero = a

  -- `map.set(id, (map.get(id) ?? zero).add(amount))`
  unfoldable pub add_to_line : Money D → LineAmounts D → String → Money D → Result (LineAmounts D)
  add_to_line zero amounts id amount = do
    sum ← Money.add (or_zero (lookup id amounts) zero) amount
    ok (insert id sum amounts)

  unfoldable pub start_lines : Money D → List (AllocationTarget D) → LineAmounts D
  start_lines zero [] = []
  start_lines zero (t ∷ ts) = (t.id, zero) ∷ start_lines zero ts

  check_discount : ExchangeRateTable D → AllocationTarget D → Option (Money D) → Result (Unit {0})
  check_discount table target none = ok tt
  check_discount table target (some discount) =
      if Money.is_zero discount
      then ok tt
      else (convert_to_base_currency target.merchandise_value table >>= λ value.
          Money.is_greater_than (Money.abs discount) value >>= λ over.
          throw_if over invalid_discount)

  unfoldable pub assert_discounts_fit_each_line :
      List (AllocationTarget D) → LineAmounts D → ExchangeRateTable D → Result (Unit {0})
  unfolding check_discount
  assert_discounts_fit_each_line targets discounts table =
      for_each (λ target. check_discount table target (lookup target.id discounts)) targets

  unfoldable pub discount_shares_of :
      AppliedCostEntry D → Money D → List (AllocationTarget D) → ℕ → Result (List (ExactShare D))
  discount_shares_of entry effect targets minor_unit =
      as_validation_failure
        (exact_allocation_shares effect targets entry.allocation_method minor_unit)

  -- The entries whose shares `validateDiscountLineAllocations` checks.
  unfoldable pub takes_money_off : AppliedCostEntry D → Bool
  takes_money_off entry =
      is_discount entry.kind
      && entry.affects_percentage_bases
      && not (Money.is_zero entry.base_currency_amount)

  add_discount :
      List (AllocationTarget D)
      → ℕ
      → Money D
      → LineAmounts D
      → AppliedCostEntry D
      → Result (LineAmounts D)
  add_discount targets minor_unit zero discounts entry =
      if takes_money_off entry
      then (discount_shares_of entry (Money.negate entry.base_currency_amount) targets minor_unit
          >>= reduce (λ known share. add_to_line zero known share.target_id share.exact_amount)
              discounts)
      else ok discounts

  unfoldable pub validate_discount_line_allocations :
      CostResult D → List (AllocationTarget D) → ExchangeRateTable D → Result (Unit {0})
  unfolding add_discount
  validate_discount_line_allocations result targets table = do
    zero ← Money.zero result.base_currency
    no_repeats [] (map (λ t. t.id) targets)
    discounts ←
        reduce (add_discount targets result.minor_unit zero) (start_lines zero targets)
          result.entries
    assert_discounts_fit_each_line targets discounts table
