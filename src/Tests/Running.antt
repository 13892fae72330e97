-- ===== src/Tests/Running.antt =====
-- What the tests of suppliers share: amounts, and a comparison that runs.
use landed_compare.Prelude.{
  ℕ, String, ◌≡◌, ◌↔◌, refl, true, false, none, some, List, [], ◌∷◌, Option, All, arith,
}
use landed_compare.Prelude.Int.{pos, is_neg, on_magnitude, ◌+ℤ◌}
use landed_compare.Errors.{Result, ok, err}
use landed_compare.Domain.Money.{Money}
use landed_compare.Domain.Quantity.{Quantity}
use landed_compare.Domain.Scaled.{scaled_js}
use landed_compare.Domain.Scaled.Text.{Scaled}
use landed_compare.Calculation.ExchangeRate.{ExchangeRateTable}
use landed_compare.Calculation.AdditionalCost.{
  AdditionalCost, CostKind, CostCategory, AllocationMethod,
}
use landed_compare.Calculation.CostCalculation.Supplier.{
  CostInput, CostResult, calculate_supplier_costs,
}
use landed_compare.Comparison.Structure.{validate_comparison_structure}
use landed_compare.Comparison.Evaluation.{
  SupplierEvaluation, EvaluateSupplierInput, evaluate_supplier, stopped, invalid, incomplete,
  missing_quote, is_expected_calculation_error,
}
use landed_compare.Comparison.Evaluation.Lines.{SupplierLineResult}
use landed_compare.Comparison.Suppliers.{
  SupplierComparisonInput, SupplierComparisonResult, compare_suppliers,
}

abbrev pub decimal : ℕ → ℕ → Scaled
decimal units places = record { units = pos units; places = places }

abbrev pub euros : ℕ → ℕ → Money Scaled
euros units places = record { amount = decimal units places; currency = "EUR" }

abbrev pub in_euros : ExchangeRateTable Scaled
in_euros = record { base = "EUR"; rates = [] }

abbrev pub value_of : {A : Type 0} → A → Result A → A
value_of default (ok a) = a
value_of default (err e) = default

-- A comparison with all that it calls, so that it can be run.
unfoldable pub comparing : SupplierComparisonInput Scaled → Result (SupplierComparisonResult Scaled)
unfolding evaluate_supplier landed_compare.Comparison.Evaluation.find_quote_structural_issues
    landed_compare.Comparison.Evaluation.has_repeat landed_compare.Comparison.Evaluation.has_unknown
    landed_compare.Comparison.Evaluation.evaluate_priced
    landed_compare.Comparison.Evaluation.missing_requirement_ids_of
    landed_compare.Prelude.Maps.lookup landed_compare.Comparison.Evaluation.items_by_requirement_id
    landed_compare.Prelude.Maps.insert_all landed_compare.Prelude.Maps.insert
    landed_compare.Comparison.Evaluation.captured
    landed_compare.Comparison.Evaluation.run_calculation_pipeline
    landed_compare.Comparison.Evaluation.require_item
    landed_compare.Calculation.QuantityResolution.resolve_order_quantity
    landed_compare.Domain.Quantity.compare_to landed_compare.Prelude.Int.scale_ℤ
    landed_compare.Domain.Quantity.subtract landed_compare.Domain.Decimal.subtract_exact
    landed_compare.Prelude.Int.◌-ℤ◌
    landed_compare.Calculation.Merchandise.calculate_quote_merchandise
    landed_compare.Calculation.Merchandise.calculate_line_subtotal
    landed_compare.Domain.Money.multiply landed_compare.Domain.Decimal.parse_exact_decimal
    landed_compare.Domain.Quantity.to_decimal_string landed_compare.Domain.Scaled.Text.print
    landed_compare.Comparison.Evaluation.Lines.merchandise_line
    landed_compare.Domain.Scaled.Text.parse
    landed_compare.Calculation.Merchandise.calculate_merchandise_total
    landed_compare.Domain.CurrencyCode.parse_currency_code landed_compare.Domain.Money.zero
    landed_compare.Domain.Money.add landed_compare.Calculation.ExchangeRate.convert_to_base_currency
    landed_compare.Calculation.CostCalculation.Supplier.calculate_supplier_costs
    landed_compare.Calculation.CostCalculation.Entries.no_repeats
    landed_compare.Domain.Money.is_negative landed_compare.Domain.Decimal.add_exact
    landed_compare.Prelude.Int.◌+ℤ◌ landed_compare.Domain.Decimal.multiply_exact
    landed_compare.Prelude.Int.◌*ℤ◌
    landed_compare.Calculation.CostCalculation.Supplier.evaluate_stages
    landed_compare.Calculation.CostCalculation.Entries.evaluate_stage
    landed_compare.Calculation.CostCalculation.Entries.group_by_stage
    landed_compare.Calculation.CostCalculation.Entries.sum_magnitudes
    landed_compare.Domain.Money.is_greater_than landed_compare.Domain.Money.subtract
    landed_compare.Calculation.CostCalculation.Supplier.settle_evaluation
    landed_compare.Calculation.CostCalculation.Entries.in_input_order
    landed_compare.Calculation.CurrencyMinorUnit.assert_settleable_at_minor_unit
    landed_compare.Domain.Money.exceeds_settlement_precision
    landed_compare.Domain.Decimal.exceeds_settlement_precision
    landed_compare.Domain.Decimal.integer_digits_of landed_compare.Domain.Money.round_to_minor_unit
    landed_compare.Calculation.CostCalculation.Settlement.reconcile_settled_effects
    landed_compare.Calculation.CostCalculation.Settlement.effect_pool
    landed_compare.Calculation.CostCalculation.Settlement.indexed
    landed_compare.Calculation.CostCalculation.Settlement.resolve_pool_targets
    landed_compare.Calculation.CostCalculation.Settlement.resolve_residual
    landed_compare.Domain.Money.is_zero landed_compare.Domain.Decimal.round_half_up
    landed_compare.Domain.Scaled.round_scaled landed_compare.Prelude.Int.on_magnitude
    landed_compare.Calculation.Allocation.Split.settle_total_across_parts
    landed_compare.Calculation.CostCalculation.Settlement.assert_breakdown_reconciles
    landed_compare.Domain.Money.equals
    landed_compare.Calculation.CostCalculation.Discounts.validate_discount_line_allocations
    landed_compare.Comparison.Evaluation.Lines.targets_of
    landed_compare.Calculation.CostCalculation.Discounts.assert_discounts_fit_each_line
    landed_compare.Calculation.CostCalculation.Discounts.start_lines
    landed_compare.Comparison.Evaluation.explained
    landed_compare.Calculation.CostCalculation.Lines.allocate_supplier_costs
    landed_compare.Calculation.CostCalculation.Lines.open_line_capacity
    landed_compare.Calculation.CostCalculation.Lines.allocate_entries
    landed_compare.Calculation.CostCalculation.Lines.settlement_order_of
    landed_compare.Comparison.Evaluation.Lines.build_line_results
    landed_compare.Calculation.CostCalculation.Lines.settle_line_merchandise
    landed_compare.Domain.Money.abs landed_compare.Domain.Money.to_decimal_string
    landed_compare.Calculation.Allocation.Weighting.sum_weights
    landed_compare.Calculation.Allocation.Split.exact_shares_of
    landed_compare.Domain.Decimal.proportional_share landed_compare.Domain.Scaled.divide
    landed_compare.Calculation.Allocation.Distribution.distribute_by_largest_remainder
    landed_compare.Calculation.Allocation.Distribution.minor_unit_step
    landed_compare.Calculation.Allocation.Distribution.minor_unit_text
    landed_compare.Calculation.Allocation.Distribution.open_slots
    landed_compare.Calculation.Allocation.Distribution.open_slot
    landed_compare.Domain.Money.truncate_to_minor_unit
    landed_compare.Domain.Decimal.truncate_toward_zero
    landed_compare.Calculation.Allocation.Distribution.hand_out
    landed_compare.Calculation.Allocation.Distribution.rounds
    landed_compare.Calculation.Allocation.Distribution.one_pass
    landed_compare.Calculation.Allocation.Distribution.hand_out_pass
    landed_compare.Calculation.Allocation.Distribution.place
    landed_compare.Comparison.Evaluation.Lines.landed_value
    landed_compare.Comparison.Evaluation.Lines.allocated_by_target
    landed_compare.Calculation.Allocation.Split.apply_sign
    landed_compare.Comparison.Evaluation.Lines.assert_lines_reconcile_to_total
    landed_compare.Comparison.Evaluation.Lines.all_present
    landed_compare.Comparison.Evaluation.Lines.assert_no_line_settles_negative compare_suppliers
    validate_comparison_structure landed_compare.Domain.Quantity.is_zero
    landed_compare.Calculation.CurrencyMinorUnit.resolve_minor_unit
    landed_compare.Comparison.Suppliers.evaluate_one
    landed_compare.Comparison.Suppliers.costs_for_supplier
    landed_compare.Comparison.Suppliers.group_quotes_by_supplier_id
    landed_compare.Comparison.Ranking.rank_complete_suppliers
    landed_compare.Comparison.Suppliers.rankable
    landed_compare.Comparison.Ranking.assert_not_negative
    landed_compare.Comparison.Ranking.ranked_suppliers landed_compare.Comparison.Ranking.dense_rank
    landed_compare.Comparison.Ranking.with_order landed_compare.Comparison.Ranking.published
    landed_compare.Comparison.Ranking.percentage_difference
    landed_compare.Calculation.Percentage.from_string
    landed_compare.Comparison.Insights.build_comparison_insights
    landed_compare.Calculation.AdditionalCost.assert_valid_additional_cost
    landed_compare.Calculation.CostCalculation.Entries.stage_eq
    landed_compare.Calculation.AdditionalCost.evaluation_stage_of
    landed_compare.Calculation.CostCalculation.Entries.evaluate_entry
    landed_compare.Calculation.CostCalculation.Entries.entry_of
    landed_compare.Calculation.CostCalculation.Entries.signed_effect_of
    landed_compare.Domain.Money.is_positive
    landed_compare.Calculation.CostCalculation.Settlement.write_shares
comparing = compare_suppliers
