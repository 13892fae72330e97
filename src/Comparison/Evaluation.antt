-- ===== src/Comparison/Evaluation.antt =====
-- `src/comparison/SupplierEvaluation.ts`: whether the landed total of one supplier can be trusted. An
-- issue and a warning are their codes; the texts that go with them are not modelled.
pub mod Lines
pub mod Items
pub mod Laws
pub mod Complete
pub mod Incomplete
use landed_compare.Prelude.{
  ℕ, String, Bool, true, false, not, ◌||◌, Option, none, some, List, [], ◌∷◌, ◌++◌, map, filter,
  if◌then◌else◌,
}
use landed_compare.Prelude.Maps.{contains, lookup, insert_all}
use landed_compare.Errors.{Error, Result, ok, err, ◌>>=◌, ◌>>◌, traverse, internal_error}
use landed_compare.Domain.DecimalJs.{DecimalJs}
use landed_compare.Domain.Money.{Money}
use landed_compare.Domain.Project.{Supplier, RequirementItem, Quote, QuoteItem}
use landed_compare.Calculation.AdditionalCost.{AdditionalCost}
use landed_compare.Calculation.ExchangeRate.{ExchangeRateTable}
use landed_compare.Calculation.Merchandise.{calculate_quote_merchandise}
use landed_compare.Calculation.QuantityResolution.{resolve_order_quantity}
use landed_compare.Calculation.CostCalculation.Supplier.{CostResult, calculate_supplier_costs}
use landed_compare.Calculation.CostCalculation.Discounts.{validate_discount_line_allocations}
use landed_compare.Calculation.CostCalculation.Lines.{AllocationBreakdown, allocate_supplier_costs}
use landed_compare.Comparison.Evaluation.Lines.{
  PricedLine, SupplierLineResult, merchandise_line, targets_of, build_line_results,
  assert_lines_reconcile_to_total, assert_no_line_settles_negative,
}

pub data SupplierStatus : Type 0 where
  complete incomplete invalid : SupplierStatus

pub data SupplierIssueCode : Type 0 where
  missing_quote empty_quote missing_required_items duplicate_quote_item : SupplierIssueCode
  unknown_requirement_reference calculation_error : SupplierIssueCode

-- The reason of an `ALLOCATION_UNAVAILABLE` warning.
pub data AllocationUnavailableReason : Type 0 where
  invalid_allocation_base incompatible_allocation_units : AllocationUnavailableReason

pub record SupplierEvaluation (D : Type 0) : Type 0 where
  pub supplier_id : String
  pub status : SupplierStatus
  pub issues : List SupplierIssueCode
  pub warnings : List AllocationUnavailableReason
  pub quote_id : Option String
  pub missing_requirement_ids : Option (List String)
  pub merchandise_total : Option (Money D)
  pub merchandise_ranking_amount : Option (Money D)
  pub exact_calculated_landed_total : Option (Money D)
  pub ranking_amount : Option (Money D)
  pub cost_result : Option (CostResult D)
  pub cost_allocation : Option (AllocationBreakdown D)
  pub lines : Option (List (SupplierLineResult D))

pub record EvaluateSupplierInput (D : Type 0) : Type 0 where
  pub supplier : Supplier
  pub quotes_for_supplier : List (Quote D)
  pub requirements : List (RequirementItem D)
  pub costs : List (AdditionalCost D)
  pub exchange_rate_table : ExchangeRateTable D
  pub minor_unit : ℕ

-- `EXPECTED_CALCULATION_ERRORS`: what invalidates a supplier, and not the program.
unfoldable pub is_expected_calculation_error : Error → Bool
is_expected_calculation_error Error.invalid_moq = true
is_expected_calculation_error Error.invalid_pack_size = true
is_expected_calculation_error Error.invalid_quantity = true
is_expected_calculation_error Error.missing_exchange_rate = true
is_expected_calculation_error Error.currency_mismatch = true
is_expected_calculation_error Error.invalid_percentage_base = true
is_expected_calculation_error Error.invalid_discount = true
is_expected_calculation_error Error.discount_allocation_validation = true
is_expected_calculation_error Error.invalid_cost_definition = true
is_expected_calculation_error Error.invalid_cost_amount = true
is_expected_calculation_error Error.precision_envelope_exceeded = true
is_expected_calculation_error _ = false

-- An evaluation that stops before any amount is known.
unfoldable pub stopped :
    {D : Type 0}
    → String
    → SupplierStatus
    → List SupplierIssueCode
    → Option String
    → Option (List String)
    → SupplierEvaluation D
stopped supplier_id status issues quote_id missing = record {
  supplier_id = supplier_id;
  status = status;
  issues = issues;
  warnings = [];
  quote_id = quote_id;
  missing_requirement_ids = missing;
  merchandise_total = none;
  merchandise_ranking_amount = none;
  exact_calculated_landed_total = none;
  ranking_amount = none;
  cost_result = none;
  cost_allocation = none;
  lines = none;
}

-- Whether the loop over the items meets an id a second time.
unfoldable pub has_repeat : List String → List String → Bool
has_repeat seen [] = false
has_repeat seen (id ∷ ids) = contains id seen || has_repeat (id ∷ seen) ids

unfoldable pub has_unknown : List String → List String → Bool
has_unknown known [] = false
has_unknown known (id ∷ ids) = not (contains id known) || has_unknown known ids

-- The explanatory pass may fail for want of a weighting, which is a warning.
unfoldable pub explained :
    {D : Type 0}
    → Result (AllocationBreakdown D)
    → Result (Option (AllocationBreakdown D) × List AllocationUnavailableReason)
explained (ok allocation) = ok (some allocation, [])
explained (err Error.invalid_allocation_base) = ok (none, invalid_allocation_base ∷ [])
explained (err Error.incompatible_allocation_units) = ok (none, incompatible_allocation_units ∷ [])
explained (err e) = err e

module _ {D : Type 0} where
  abbrev pub requirement_ids : List (RequirementItem D) → List String
  requirement_ids = map (λ r. r.id)

  abbrev pub priced_ids : List (QuoteItem D) → List String
  priced_ids = map (λ i. i.requirement_id)

  unfoldable pub find_quote_structural_issues :
      Quote D → List (RequirementItem D) → List SupplierIssueCode
  find_quote_structural_issues quote requirements =
      (if has_repeat [] (priced_ids quote.items) then duplicate_quote_item ∷ [] else [])
      ++ (if has_unknown (requirement_ids requirements) (priced_ids quote.items)
          then unknown_requirement_reference ∷ []
          else [])

  abbrev pub item_entry : QuoteItem D → String × QuoteItem D
  item_entry item = (item.requirement_id, item)

  unfoldable pub items_by_requirement_id : List (QuoteItem D) → List (String × QuoteItem D)
  items_by_requirement_id items = insert_all (map item_entry items) []

  has_item : List (String × QuoteItem D) → RequirementItem D → Bool
  has_item items r = elim (lookup r.id items) [ none ↦ false | some i ↦ true ]

  unfoldable pub missing_requirement_ids_of :
      List (RequirementItem D) → List (String × QuoteItem D) → List String
  unfolding has_item
  missing_requirement_ids_of requirements items =
      requirement_ids (filter (λ r. not (has_item items r)) requirements)

  unfoldable pub require_item :
      List (String × QuoteItem D) → RequirementItem D → Result (RequirementItem D × QuoteItem D)
  require_item items r = elim (lookup r.id items) [
    | none ↦ err internal_error
    | some item ↦ ok (r, item)
  ]

module _ {D : Type 0} ⦃j : DecimalJs D⦄ where
  resolve_line : RequirementItem D × QuoteItem D → Result (PricedLine D)
  resolve_line (r, item) = do
    resolution ← resolve_order_quantity (record {
      required_quantity = r.required_quantity;
      moq = item.moq;
      units_per_quoted_unit = item.units_per_quoted_unit;
    })
    ok (record { requirement = r; item = item; resolution = resolution })

  unfoldable pub run_calculation_pipeline :
      EvaluateSupplierInput D
      → Quote D
      → List (String × QuoteItem D)
      → Result (SupplierEvaluation D)
  unfolding resolve_line
  run_calculation_pipeline input quote items = do
    let table = input.exchange_rate_table
    matched ← traverse (require_item items) input.requirements
    priced ← traverse resolve_line matched
    merchandise ← calculate_quote_merchandise (map merchandise_line priced) quote.currency table
    cost_result ← calculate_supplier_costs (record {
      merchandise_total = merchandise.base_currency_total;
      costs = input.costs;
      exchange_rate_table = table;
      minor_unit = input.minor_unit;
    })
    let targets = targets_of priced merchandise.line_subtotals
    validate_discount_line_allocations cost_result targets table
    allocation ← explained (allocate_supplier_costs cost_result targets table)
    lines ←
        build_line_results priced targets cost_result.settled_merchandise_total (allocation.0) table
          input.minor_unit
    assert_lines_reconcile_to_total lines cost_result.settled_landed_total
    assert_no_line_settles_negative lines
    ok (record {
      supplier_id = input.supplier.id;
      status = complete;
      issues = [];
      warnings = allocation.1;
      quote_id = some quote.id;
      missing_requirement_ids = none;
      merchandise_total = some cost_result.merchandise_total;
      merchandise_ranking_amount = some cost_result.settled_merchandise_total;
      exact_calculated_landed_total = some cost_result.calculated_landed_total;
      ranking_amount = some cost_result.settled_landed_total;
      cost_result = some cost_result;
      cost_allocation = allocation.0;
      lines = some lines;
    })

  -- The `catch` around the pipeline.
  unfoldable pub captured :
      String → String → Result (SupplierEvaluation D) → Result (SupplierEvaluation D)
  captured supplier_id quote_id (ok evaluation) = ok evaluation
  captured supplier_id quote_id (err e) =
      if is_expected_calculation_error e
      then ok (stopped supplier_id invalid (calculation_error ∷ []) (some quote_id) none)
      else err e

  -- The quote is well formed and has items: is every requirement priced?
  unfoldable pub evaluate_priced :
      EvaluateSupplierInput D
      → Quote D
      → List (String × QuoteItem D)
      → List String
      → Result (SupplierEvaluation D)
  evaluate_priced input quote items [] =
      captured input.supplier.id quote.id (run_calculation_pipeline input quote items)
  evaluate_priced input quote items (id ∷ ids) = ok (
      stopped input.supplier.id incomplete (missing_required_items ∷ []) (some quote.id)
        (some (id ∷ ids)))

  evaluate_items :
      EvaluateSupplierInput D → Quote D → List (QuoteItem D) → Result (SupplierEvaluation D)
  evaluate_items input quote [] = ok (
      stopped input.supplier.id incomplete (empty_quote ∷ []) (some quote.id)
        (some (requirement_ids input.requirements)))
  evaluate_items input quote (i ∷ is) =
      let items = items_by_requirement_id (i ∷ is) in
      evaluate_priced input quote items (missing_requirement_ids_of input.requirements items)

  evaluate_quote :
      EvaluateSupplierInput D → Quote D → List SupplierIssueCode → Result (SupplierEvaluation D)
  evaluate_quote input quote [] = evaluate_items input quote quote.items
  evaluate_quote input quote (issue ∷ issues) =
      ok (stopped input.supplier.id invalid (issue ∷ issues) (some quote.id) none)

  evaluate_first : EvaluateSupplierInput D → List (Quote D) → Result (SupplierEvaluation D)
  evaluate_first input [] = ok (
      stopped input.supplier.id incomplete (missing_quote ∷ []) none
        (some (requirement_ids input.requirements)))
  evaluate_first input (quote ∷ quotes) =
      evaluate_quote input quote (find_quote_structural_issues quote input.requirements)

  unfoldable pub evaluate_supplier : EvaluateSupplierInput D → Result (SupplierEvaluation D)
  unfolding evaluate_items evaluate_quote evaluate_first
  evaluate_supplier input = evaluate_first input input.quotes_for_supplier
