-- ===== src/Calculation/CostCalculation/Lines.antt =====
-- `allocateSupplierCosts` of `src/calculation/CostCalculation.ts`: the explanation by line.
use landed_compare.Prelude.{
  ℕ, String, Bool, not, ◌&&◌, Option, none, some, List, [], ◌∷◌, map, any, if◌then◌else◌, Ordering,
  compare, then_by,
}
use landed_compare.Prelude.Maps.{lookup}
use landed_compare.Prelude.Sorting.{sort_by}
use landed_compare.Prelude.Text.{compare_text}
use landed_compare.Errors.{
  Result, ok, ◌>>=◌, ◌>>◌, throw_if, traverse, reduce, allocation_invariant,
}
use landed_compare.Domain.DecimalJs.{DecimalJs}
use landed_compare.Domain.Money
use landed_compare.Domain.Money.{Money}
use landed_compare.Calculation.ExchangeRate.{ExchangeRateTable, convert_to_base_currency}
use landed_compare.Calculation.AdditionalCost.{
  CostKind, CostCategory, AllocationMethod, is_discount,
}
use landed_compare.Calculation.Allocation.Weighting.{AllocationTarget}
use landed_compare.Calculation.Allocation.Split.{
  Allocation, allocate_amount, settle_total_across_parts,
}
use landed_compare.Calculation.CostCalculation.Entries.{AppliedCostEntry, no_repeats}
use landed_compare.Calculation.CostCalculation.Settlement.{indexed}
use landed_compare.Calculation.CostCalculation.Supplier.{CostResult}
use landed_compare.Calculation.CostCalculation.Discounts.{
  LineAmounts, add_to_line, or_zero, start_lines, assert_discounts_fit_each_line,
}

pub record LineMerchandise (D : Type 0) : Type 0 where
  pub base_currency_values : List (Money D)
  pub settled_values : List (Money D)

pub record CostBreakdown (D : Type 0) : Type 0 where
  pub entry_id : String
  pub kind : CostKind
  pub category : CostCategory
  pub method : AllocationMethod
  pub exact_amount : Money D
  pub settled_amount : Money D
  pub allocations : List (Allocation D)

pub record LineAllocatedCost (D : Type 0) : Type 0 where
  pub target_id : String
  pub allocated_cost_total : Money D

pub record AllocationBreakdown (D : Type 0) : Type 0 where
  pub base_currency : String
  pub minor_unit : ℕ
  pub by_entry : List (CostBreakdown D)
  pub by_line : List (LineAllocatedCost D)

-- The maps that the loop of `allocateSupplierCosts` updates.
pub record Running (D : Type 0) : Type 0 where
  pub line_totals : LineAmounts D
  pub exact_line_discounts : LineAmounts D
  pub remaining_capacity : Option (LineAmounts D)

discount_rank : CostKind → ℕ
discount_rank kind = if is_discount kind then 1 else 0

module _ {D : Type 0} ⦃j : DecimalJs D⦄ where
  unfoldable pub settle_line_merchandise :
      List (AllocationTarget D) → Money D → ExchangeRateTable D → ℕ → Result (LineMerchandise D)
  settle_line_merchandise targets settled_total table minor_unit = do
    values ← traverse (λ t. convert_to_base_currency t.merchandise_value table) targets
    settled ← settle_total_across_parts settled_total values minor_unit
    ok (record { base_currency_values = values; settled_values = settled })

  pair_lines : List (AllocationTarget D) → List (Money D) → LineAmounts D
  pair_lines (t ∷ ts) (v ∷ vs) = (t.id, v) ∷ pair_lines ts vs
  pair_lines _ _ = []

  unfoldable pub places_discount : AppliedCostEntry D → Bool
  places_discount entry = is_discount entry.kind && not (Money.is_zero entry.settled_effect)

  unfoldable pub open_line_capacity :
      List (AppliedCostEntry D)
      → List (AllocationTarget D)
      → CostResult D
      → ExchangeRateTable D
      → Result (Option (LineAmounts D))
  unfolding pair_lines
  open_line_capacity entries targets result table =
      if any places_discount entries
      then (settle_line_merchandise targets result.settled_merchandise_total table result.minor_unit
          >>= λ settled. ok (some (pair_lines targets settled.settled_values)))
      else ok none

  unfoldable pub settlement_order : AppliedCostEntry D → AppliedCostEntry D → Ordering
  unfolding discount_rank
  settlement_order a b =
      then_by (compare (discount_rank a.kind) (discount_rank b.kind)) (compare_text a.id b.id)

  unfoldable pub settlement_order_of : List (AppliedCostEntry D) → List (ℕ × AppliedCostEntry D)
  settlement_order_of entries = sort_by (λ a b. settlement_order a.1 b.1) (indexed 0 entries)

  add_capacity : Money D → Option (LineAmounts D) → Allocation D → Result (Option (LineAmounts D))
  add_capacity zero none a = ok none
  add_capacity zero (some capacity) a =
      add_to_line zero capacity a.target_id a.amount >>= λ c. ok (some c)

  record_allocation : Bool → Money D → Running D → Allocation D → Result (Running D)
  record_allocation discount zero running a = do
    totals ← add_to_line zero running.line_totals a.target_id a.amount
    capacity ← add_capacity zero running.remaining_capacity a
    discounts ←
        (if discount
          then add_to_line zero running.exact_line_discounts a.target_id a.exact_amount
          else ok running.exact_line_discounts)
    ok (record {
      line_totals = totals;
      exact_line_discounts = discounts;
      remaining_capacity = capacity;
    })

  -- One round of the loop over the entries in settlement order.
  unfoldable pub allocate_entry :
      List (AllocationTarget D)
      → ℕ
      → Money D
      → Running D
      → AppliedCostEntry D
      → Result (Running D × CostBreakdown D)
  unfolding record_allocation add_capacity
  allocate_entry targets minor_unit zero running entry = do
    let discount = is_discount entry.kind
    allocated ←
        allocate_amount entry.signed_effect targets entry.allocation_method minor_unit
          (some entry.settled_effect) (if discount then running.remaining_capacity else none)
    throw_if (not (Money.equals allocated.settled_amount entry.settled_effect)) allocation_invariant
    running' ← reduce (record_allocation discount zero) running allocated.allocations
    ok (
      running',
      record {
        entry_id = entry.id;
        kind = entry.kind;
        category = entry.category;
        method = allocated.method;
        exact_amount = allocated.exact_amount;
        settled_amount = entry.settled_effect;
        allocations = allocated.allocations;
      },
    )

  unfoldable pub allocate_entries :
      List (AllocationTarget D)
      → ℕ
      → Money D
      → Running D
      → List (ℕ × AppliedCostEntry D)
      → Result (Running D × List (ℕ × CostBreakdown D))
  allocate_entries targets minor_unit zero running [] = ok (running, [])
  allocate_entries targets minor_unit zero running ((index, entry) ∷ entries) = do
    step ← allocate_entry targets minor_unit zero running entry
    rest ← allocate_entries targets minor_unit zero step.0 entries
    ok (rest.0, (index, step.1) ∷ rest.1)

  unfoldable pub allocate_supplier_costs :
      CostResult D
      → List (AllocationTarget D)
      → ExchangeRateTable D
      → Result (AllocationBreakdown D)
  allocate_supplier_costs result targets table = do
    zero ← Money.zero result.base_currency
    no_repeats [] (map (λ t. t.id) targets)
    let entries = result.applied_entries
    let lines = start_lines zero targets
    capacity ← open_line_capacity entries targets result table
    done ←
        allocate_entries targets result.minor_unit zero
          (record {
            line_totals = lines;
            exact_line_discounts = lines;
            remaining_capacity = capacity;
          })
          (settlement_order_of entries)
    assert_discounts_fit_each_line targets done.0.exact_line_discounts table
    ok (record {
      base_currency = result.base_currency;
      minor_unit = result.minor_unit;
      by_entry = map (λ w. w.1) (sort_by (λ a b. compare a.0 b.0) done.1);
      by_line =
          map
            (λ t. record {
              target_id = t.id;
              allocated_cost_total = or_zero (lookup t.id done.0.line_totals) zero;
            })
            targets;
    })
