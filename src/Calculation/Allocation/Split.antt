-- ===== src/Calculation/Allocation/Split.antt =====
-- `allocateAmount`, `exactAllocationShares` and `settleTotalAcrossParts` of
-- `src/calculation/Allocation.ts`.
use landed_compare.Prelude.{
  ℕ, String, Bool, true, false, not, ◌&&◌, ◌||◌, Option, none, some, List, [], ◌∷◌, map, str_eq,
  if◌then◌else◌,
}
use landed_compare.Prelude.Maps.{lookup}
use landed_compare.Errors.{
  Result, ok, err, ◌>>=◌, ◌>>◌, throw_if, traverse, reduce, allocation_invariant,
  allocation_capacity, currency_mismatch,
}
use landed_compare.Domain.DecimalJs.{DecimalJs}
use landed_compare.Domain.Decimal.{parse_exact_decimal, proportional_share}
use landed_compare.Domain.Money
use landed_compare.Domain.Money.{Money}
use landed_compare.Calculation.AdditionalCost.{AllocationMethod}
use landed_compare.Calculation.CurrencyMinorUnit.{assert_settleable_at_minor_unit}
use landed_compare.Calculation.Allocation.Weighting.{
  AllocationTarget, WeightedTarget, resolve_weighting, sum_weights,
}
use landed_compare.Calculation.Allocation.Distribution.{distribute_by_largest_remainder}

pub record Allocation (D : Type 0) : Type 0 where
  pub target_id : String
  pub amount : Money D
  pub exact_amount : Money D

pub record AllocationResult (D : Type 0) : Type 0 where
  pub method : AllocationMethod
  pub minor_unit : ℕ
  pub exact_amount : Money D
  pub settled_amount : Money D
  pub allocations : List (Allocation D)

pub record ExactShare (D : Type 0) : Type 0 where
  pub target_id : String
  pub exact_amount : Money D

abbrev same : Bool → Bool → Bool
same true b = b
same false b = not b

module _ {D : Type 0} ⦃j : DecimalJs D⦄ where
  unfoldable pub exact_shares_of : Money D → List D → D → ℕ → Result (List (Money D))
  exact_shares_of magnitude weights total_weight minor_unit = do
    total ← parse_exact_decimal (Money.to_decimal_string magnitude)
    traverse
        (λ w.
          Money.from_string (j.to_fixed (proportional_share total w total_weight minor_unit))
            magnitude.currency)
        weights

  unfoldable pub settlement_magnitude_of : Money D → Money D → ℕ → Result (Money D)
  settlement_magnitude_of amount target minor_unit = do
    throw_if (not (str_eq target.currency amount.currency)) currency_mismatch
    throw_if
        (not (
          Money.is_zero target
          || (not (Money.is_zero amount)
              && same (Money.is_negative target) (Money.is_negative amount))))
        allocation_invariant
    let magnitude = Money.abs target
    assert_settleable_at_minor_unit magnitude minor_unit
    throw_if (not (Money.equals (Money.round_to_minor_unit magnitude minor_unit) magnitude))
        allocation_invariant
    ok magnitude

  capacity_of : String → ℕ → Option (Money D) → Result (Money D)
  capacity_of currency minor_unit none = err allocation_capacity
  capacity_of currency minor_unit (some capacity) = do
    throw_if (not (str_eq capacity.currency currency)) currency_mismatch
    throw_if (Money.is_negative capacity) allocation_capacity
    ok (Money.truncate_to_minor_unit capacity minor_unit)

  unfoldable pub resolve_capacities :
      List (WeightedTarget D) → List (String × Money D) → String → ℕ → Result (List (Money D))
  unfolding capacity_of
  resolve_capacities weighted capacities currency minor_unit =
      traverse (λ w. capacity_of currency minor_unit (lookup w.target.id capacities)) weighted

  -- `isNegativeAmount && !value.isZero() ? value.negate() : value`
  unfoldable pub apply_sign : Bool → Money D → Money D
  apply_sign negative value =
      if negative && not (Money.is_zero value) then Money.negate value else value

  allocation_list :
      Bool → List (WeightedTarget D) → List (Money D) → List (Money D) → List (Allocation D)
  allocation_list negative (w ∷ ws) (a ∷ as') (e ∷ es) =
      record {
        target_id = w.target.id;
        amount = apply_sign negative a;
        exact_amount = apply_sign negative e;
      }
      ∷ allocation_list negative ws as' es
  allocation_list negative _ _ _ = []

  settled_magnitude : Money D → Option (Money D) → ℕ → Result (Money D)
  settled_magnitude amount none minor_unit =
      ok (Money.round_to_minor_unit (Money.abs amount) minor_unit)
  settled_magnitude amount (some target) minor_unit =
      settlement_magnitude_of amount target minor_unit

  optional_capacities :
      List (WeightedTarget D)
      → Option (List (String × Money D))
      → String
      → ℕ
      → Result (Option (List (Money D)))
  optional_capacities weighted none currency minor_unit = ok none
  optional_capacities weighted (some capacities) currency minor_unit = do
    resolved ← resolve_capacities weighted capacities currency minor_unit
    ok (some resolved)

  unfoldable pub allocate_amount :
      Money D
      → List (AllocationTarget D)
      → AllocationMethod
      → ℕ
      → Option (Money D)
      → Option (List (String × Money D))
      → Result (AllocationResult D)
  unfolding allocation_list settled_magnitude optional_capacities
  allocate_amount amount targets method minor_unit settlement_target capacity_by_id = do
    weighting ← resolve_weighting targets method
    let magnitude = Money.abs amount
    assert_settleable_at_minor_unit magnitude minor_unit
    let negative = Money.is_negative amount
    settled ← settled_magnitude amount settlement_target minor_unit
    let weights = map (λ w. w.weight) weighting.weighted
    capacities ← optional_capacities weighting.weighted capacity_by_id amount.currency minor_unit
    settled_shares ← exact_shares_of settled weights weighting.total_weight minor_unit
    allocated ← distribute_by_largest_remainder settled settled_shares minor_unit capacities
    exact_shares ← exact_shares_of magnitude weights weighting.total_weight minor_unit
    ok (record {
      method = method;
      minor_unit = minor_unit;
      exact_amount = amount;
      settled_amount = apply_sign negative settled;
      allocations = allocation_list negative weighting.weighted allocated exact_shares;
    })

  share_list : Bool → List (WeightedTarget D) → List (Money D) → List (ExactShare D)
  share_list negative (w ∷ ws) (e ∷ es) =
      record { target_id = w.target.id; exact_amount = apply_sign negative e }
      ∷ share_list negative ws es
  share_list negative _ _ = []

  unfoldable pub exact_allocation_shares :
      Money D → List (AllocationTarget D) → AllocationMethod → ℕ → Result (List (ExactShare D))
  unfolding share_list
  exact_allocation_shares amount targets method minor_unit = do
    weighting ← resolve_weighting targets method
    shares ←
        exact_shares_of (Money.abs amount) (map (λ w. w.weight) weighting.weighted)
          weighting.total_weight minor_unit
    ok (share_list (Money.is_negative amount) weighting.weighted shares)

  part_weight : String → Money D → Result D
  part_weight currency part = do
    throw_if (not (str_eq part.currency currency)) currency_mismatch
    throw_if (Money.is_negative part) allocation_invariant
    parse_exact_decimal (Money.to_decimal_string part)

  -- No part has anything: every part settles to zero.
  settle_nothing : Money D → List (Money D) → Result (List (Money D))
  settle_nothing total parts = do
    throw_if (not (Money.is_zero total)) allocation_invariant
    none_each ← Money.zero total.currency
    ok (map (λ _. none_each) parts)

  settle_weighted : Money D → List D → D → ℕ → Result (List (Money D))
  settle_weighted total weights total_weight minor_unit = do
    let magnitude = Money.abs total
    shares ← exact_shares_of magnitude weights total_weight minor_unit
    settled ← distribute_by_largest_remainder magnitude shares minor_unit none
    ok (map (apply_sign (Money.is_negative total)) settled)

  settle_parts : Money D → List (Money D) → ℕ → Result (List (Money D))
  unfolding part_weight settle_nothing settle_weighted
  settle_parts total parts minor_unit = do
    assert_settleable_at_minor_unit (Money.abs total) minor_unit
    weights ← traverse (part_weight total.currency) parts
    nothing ← parse_exact_decimal "0"
    let total_weight = sum_weights nothing weights
    (if j.is_zero total_weight
        then settle_nothing total parts
        else settle_weighted total weights total_weight minor_unit)

  unfoldable pub settle_total_across_parts : Money D → List (Money D) → ℕ → Result (List (Money D))
  unfolding settle_parts
  settle_total_across_parts total [] minor_unit =
      throw_if (not (Money.is_zero total)) allocation_invariant >> ok []
  settle_total_across_parts total (p ∷ ps) minor_unit = settle_parts total (p ∷ ps) minor_unit

  unfoldable pub sum_allocations : List (Allocation D) → String → Result (Money D)
  sum_allocations allocations currency = do
    start ← Money.zero currency
    reduce (λ sum a. Money.add sum a.amount) start allocations
