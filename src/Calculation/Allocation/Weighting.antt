-- ===== src/Calculation/Allocation/Weighting.antt =====
-- The weighting side of an allocation, in `src/calculation/Allocation.ts`.
use landed_compare.Prelude.{
  String, Bool, true, false, not, List, [], ◌∷◌, map, str_eq, if◌then◌else◌, length, ltb,
}
use landed_compare.Prelude.Maps.{contains}
use landed_compare.Errors.{
  Result, ok, ◌>>=◌, ◌>>◌, throw_if, traverse, for_each, invalid_allocation_base,
  incompatible_allocation_units, currency_mismatch,
}
use landed_compare.Domain.DecimalJs.{DecimalJs}
use landed_compare.Domain.Decimal.{parse_exact_decimal, add_exact}
use landed_compare.Domain.Money
use landed_compare.Domain.Money.{Money}
use landed_compare.Domain.Quantity
use landed_compare.Domain.Quantity.{Quantity}
use landed_compare.Calculation.AdditionalCost.{
  AllocationMethod, by_merchandise_value, equal_per_line, by_quantity,
}

pub record AllocationTarget (D : Type 0) : Type 0 where
  pub id : String
  pub merchandise_value : Money D
  pub quantity : Quantity D
  pub comparison_unit : String

pub record WeightedTarget (D : Type 0) : Type 0 where
  pub target : AllocationTarget D
  pub weight : D

pub record Weighting (D : Type 0) : Type 0 where
  pub weighted : List (WeightedTarget D)
  pub total_weight : D

-- `[...new Set(xs)]`
unique : List String → List String → List String
unique seen [] = []
unique seen (x ∷ xs) =
    let fresh = x ∷ unique (x ∷ seen) xs in
    let repeated = unique seen xs in if contains x seen then repeated else fresh

module _ {D : Type 0} ⦃j : DecimalJs D⦄ where
  unfoldable pub weighted_target : AllocationTarget D → String → Result (WeightedTarget D)
  weighted_target target raw = do
    weight ← parse_exact_decimal raw
    throw_if (j.is_negative weight) invalid_allocation_base
    ok (record { target = target; weight = weight })

  same_currency : String → List (AllocationTarget D) → Result (Unit {0})
  same_currency expected =
      for_each λ target.
        throw_if (not (str_eq target.merchandise_value.currency expected)) currency_mismatch

  unfoldable pub assert_single_currency : List (AllocationTarget D) → Result (Unit {0})
  unfolding same_currency
  assert_single_currency [] = ok tt
  assert_single_currency (t ∷ ts) = same_currency t.merchandise_value.currency ts

  unfoldable pub assert_single_comparison_unit : List (AllocationTarget D) → Result (Unit {0})
  unfolding unique
  assert_single_comparison_unit targets =
      throw_if (ltb 1 (length (unique [] (map (λ t. t.comparison_unit) targets))))
        incompatible_allocation_units

  unfoldable pub resolve_weights :
      List (AllocationTarget D) → AllocationMethod → Result (List (WeightedTarget D))
  resolve_weights targets equal_per_line = do
    one ← parse_exact_decimal "1"
    ok (map (λ t. record { target = t; weight = one }) targets)
  resolve_weights targets by_merchandise_value =
      assert_single_currency targets
      >> traverse (λ t. weighted_target t (Money.to_decimal_string t.merchandise_value)) targets
  resolve_weights targets by_quantity =
      assert_single_comparison_unit targets
      >> traverse (λ t. weighted_target t (Quantity.to_decimal_string t.quantity)) targets

  unfoldable pub sum_weights : D → List D → D
  sum_weights sum [] = sum
  sum_weights sum (w ∷ ws) = sum_weights (add_exact sum w) ws

  is_empty : List (AllocationTarget D) → Bool
  is_empty [] = true
  is_empty _ = false

  unfoldable pub resolve_weighting :
      List (AllocationTarget D) → AllocationMethod → Result (Weighting D)
  unfolding is_empty
  resolve_weighting targets method = do
    throw_if (is_empty targets) invalid_allocation_base
    weighted ← resolve_weights targets method
    nothing ← parse_exact_decimal "0"
    let total = sum_weights nothing (map (λ w. w.weight) weighted)
    throw_if (j.is_zero total) invalid_allocation_base
    ok (record { weighted = weighted; total_weight = total })
