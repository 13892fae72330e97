-- ===== src/Comparison/Evaluation/Lines.antt =====
-- The lines of an evaluated supplier in `src/comparison/SupplierEvaluation.ts`.
use landed_compare.Prelude.{ℕ, String, Bool, not, Option, none, some, List, [], ◌∷◌, map}
use landed_compare.Prelude.Maps.{lookup, insert_all}
use landed_compare.Errors.{Result, ok, ◌>>=◌, throw_if, for_each, reduce, settlement_reconciliation}
use landed_compare.Domain.DecimalJs.{DecimalJs}
use landed_compare.Domain.Money
use landed_compare.Domain.Money.{Money}
use landed_compare.Domain.Quantity.{Quantity}
use landed_compare.Domain.Project.{RequirementItem, QuoteItem}
use landed_compare.Calculation.ExchangeRate.{ExchangeRateTable}
use landed_compare.Calculation.Merchandise.{MerchandiseLine}
use landed_compare.Calculation.QuantityResolution.{Resolution}
use landed_compare.Calculation.Allocation.Weighting.{AllocationTarget}
use landed_compare.Calculation.CostCalculation.Lines.{AllocationBreakdown, settle_line_merchandise}

-- One requirement with the item that prices it and the resolved quantity: the arrays of the source
-- that share an index.
pub record PricedLine (D : Type 0) : Type 0 where
  pub requirement : RequirementItem D
  pub item : QuoteItem D
  pub resolution : Resolution D

pub record SupplierLineResult (D : Type 0) : Type 0 where
  pub requirement_id : String
  pub quote_item_id : String
  pub comparison_unit : String
  pub quoted_unit : String
  pub required_quantity : Quantity D
  pub resolved_quantity : Quantity D
  pub quoted_unit_quantity : Quantity D
  pub excess_quantity : Quantity D
  pub moq : Option (Quantity D)
  pub moq_applied : Bool
  pub units_per_quoted_unit : Option (Quantity D)
  pub pack_applied : Bool
  pub quoted_unit_price : Money D
  pub exact_merchandise_value : Money D
  pub exact_base_currency_merchandise_value : Money D
  pub settled_merchandise_value : Money D
  pub allocated_cost_total : Option (Money D)
  pub settled_landed_value : Option (Money D)

module _ {D : Type 0} where
  unfoldable pub merchandise_line : PricedLine D → MerchandiseLine D
  merchandise_line line = record {
    unit_price = line.item.quoted_unit_price;
    calculation_quantity = line.resolution.quoted_unit_quantity;
  }

  unfoldable pub targets_of : List (PricedLine D) → List (Money D) → List (AllocationTarget D)
  targets_of (line ∷ lines) (value ∷ values) =
      record {
        id = line.requirement.id;
        merchandise_value = value;
        quantity = line.resolution.resolved_quantity;
        comparison_unit = line.requirement.comparison_unit;
      }
      ∷ targets_of lines values
  targets_of _ _ = []

  -- `new Map((costAllocation?.byLine ?? []).map(…))`
  unfoldable pub allocated_by_target : Option (AllocationBreakdown D) → List (String × Money D)
  allocated_by_target none = []
  allocated_by_target (some a) =
      insert_all (map (λ l. (l.target_id, l.allocated_cost_total)) a.by_line) []

  -- All of the values, if each is there.
  unfoldable pub all_present : List (Option (Money D)) → Option (List (Money D))
  all_present [] = some []
  all_present (none ∷ rest) = none
  all_present (some value ∷ rest) = elim (all_present rest) [
    | none ↦ none
    | some values ↦ some (value ∷ values)
  ]

module _ {D : Type 0} ⦃j : DecimalJs D⦄ where
  unfoldable pub landed_value : Money D → Option (Money D) → Result (Option (Money D))
  landed_value settled none = ok none
  landed_value settled (some allocated) = Money.add settled allocated >>= λ sum. ok (some sum)

  build_line :
      PricedLine D
      → AllocationTarget D
      → Money D
      → Money D
      → Option (Money D)
      → Result (SupplierLineResult D)
  build_line line target base settled allocated = do
    landed ← landed_value settled allocated
    ok (record {
      requirement_id = line.requirement.id;
      quote_item_id = line.item.id;
      comparison_unit = line.requirement.comparison_unit;
      quoted_unit = line.item.quoted_unit;
      required_quantity = line.resolution.required_quantity;
      resolved_quantity = line.resolution.resolved_quantity;
      quoted_unit_quantity = line.resolution.quoted_unit_quantity;
      excess_quantity = line.resolution.excess_quantity;
      moq = line.resolution.moq;
      moq_applied = line.resolution.moq_applied;
      units_per_quoted_unit = line.resolution.units_per_quoted_unit;
      pack_applied = line.resolution.pack_applied;
      quoted_unit_price = line.item.quoted_unit_price;
      exact_merchandise_value = target.merchandise_value;
      exact_base_currency_merchandise_value = base;
      settled_merchandise_value = settled;
      allocated_cost_total = allocated;
      settled_landed_value = landed;
    })

  build_lines :
      List (String × Money D)
      → List (PricedLine D)
      → List (AllocationTarget D)
      → List (Money D)
      → List (Money D)
      → Result (List (SupplierLineResult D))
  build_lines allocated (line ∷ lines) (target ∷ targets) (base ∷ bases) (settled ∷ rest) = do
    first ← build_line line target base settled (lookup line.requirement.id allocated)
    others ← build_lines allocated lines targets bases rest
    ok (first ∷ others)
  build_lines allocated _ _ _ _ = ok []

  unfoldable pub build_line_results :
      List (PricedLine D)
      → List (AllocationTarget D)
      → Money D
      → Option (AllocationBreakdown D)
      → ExchangeRateTable D
      → ℕ
      → Result (List (SupplierLineResult D))
  unfolding build_line build_lines
  build_line_results lines targets settled_total allocation table minor_unit = do
    settled ← settle_line_merchandise targets settled_total table minor_unit
    build_lines (allocated_by_target allocation) lines targets settled.base_currency_values
        settled.settled_values

  abbrev pub landed_values : List (SupplierLineResult D) → List (Option (Money D))
  landed_values = map (λ line. line.settled_landed_value)

  unfoldable pub reconcile : Option (List (Money D)) → Money D → Result (Unit {0})
  reconcile none settled_total = ok tt
  reconcile (some values) settled_total = do
    zero ← Money.zero settled_total.currency
    total ← reduce Money.add zero values
    throw_if (not (Money.equals total settled_total)) settlement_reconciliation

  unfoldable pub assert_lines_reconcile_to_total :
      List (SupplierLineResult D) → Money D → Result (Unit {0})
  unfolding reconcile
  assert_lines_reconcile_to_total lines settled_total =
      reconcile (all_present (landed_values lines)) settled_total

  unfoldable pub not_negative : Option (Money D) → Result (Unit {0})
  not_negative none = ok tt
  not_negative (some landed) = throw_if (Money.is_negative landed) settlement_reconciliation

  unfoldable pub assert_no_line_settles_negative : List (SupplierLineResult D) → Result (Unit {0})
  unfolding not_negative
  assert_no_line_settles_negative = for_each (λ line. not_negative line.settled_landed_value)
