-- ===== src/Tests/Costs.antt =====
-- The costs of a supplier at concrete amounts.
use landed_compare.Prelude.{◌≡◌, refl, true, false, none, some, [], ◌∷◌, arith}
use landed_compare.Prelude.Int.{pos, on_magnitude, ◌+ℤ◌}
use landed_compare.Errors.{ok}
use landed_compare.Domain.DecimalJs.{half_up, round_units}
use landed_compare.Domain.Money.Laws.{Worth}
use landed_compare.Domain.Scaled.{scaled_js}
use landed_compare.Domain.Scaled.Text.{Scaled}
use landed_compare.Domain.Scaled.Laws.{scaled-IsDecimalJs}
use landed_compare.Calculation.AdditionalCost.{
  AdditionalCost, CostKind, CostCategory, AllocationMethod,
}
use landed_compare.Calculation.CostCalculation.Supplier.{
  CostInput, CostResult, calculate_supplier_costs,
}
use landed_compare.Calculation.CostCalculation.Supplier.Landed.{calculate_supplier_costs-sums}
use landed_compare.Tests.Running.{euros, in_euros, value_of, comparing}

abbrev shipping : AdditionalCost Scaled
shipping = record {
  id = "freight";
  kind = CostKind.cost;
  category = CostCategory.freight;
  label = none;
  fixed_amount = some (euros 5004 3);
  percentage = none;
  include_in_comparison = true;
  already_included_in_quote = false;
  allocation_method = AllocationMethod.by_quantity;
}

abbrev shipped : CostInput Scaled
shipped = record {
  merchandise_total = euros 25 1;
  costs = shipping ∷ [];
  exchange_rate_table = in_euros;
  minor_unit = 2;
}

abbrev no_cost : CostResult Scaled
no_cost = record {
  base_currency = "";
  minor_unit = 0;
  merchandise_total = euros 0 0;
  settled_merchandise_total = euros 0 0;
  percentage_bases = record {
    merchandise = euros 0 0;
    merchandise_after_discount = euros 0 0;
    merchandise_plus_freight_insurance = euros 0 0;
  };
  entries = [];
  applied_entries = [];
  already_included_entries = [];
  excluded_entries = [];
  total_discounts = euros 0 0;
  total_surcharges = euros 0 0;
  total_additional_costs = euros 0 0;
  base_affecting_discounts = euros 0 0;
  calculated_landed_total = euros 0 0;
  settled_landed_total = euros 0 0;
}

abbrev shipped_cost : CostResult Scaled
shipped_cost = value_of no_cost (calculate_supplier_costs shipped)

shipped_calculated : calculate_supplier_costs shipped ≡ ok shipped_cost
unfolding comparing
shipped_calculated = refl

calculate_supplier_costs-sums_example :
    let round = on_magnitude (round_units half_up 10) in
    Worth scaled-IsDecimalJs 3 "EUR" shipped_cost.calculated_landed_total
      (pos 2500 +ℤ (pos 5004 +ℤ pos 0))
    × Worth scaled-IsDecimalJs 2 "EUR" shipped_cost.settled_merchandise_total (round (pos 2500))
    × Worth scaled-IsDecimalJs 2 "EUR" shipped_cost.settled_landed_total
        (round (pos 2500 +ℤ (pos 5004 +ℤ pos 0)))
    × (round (pos 2500) +ℤ (pos 500 +ℤ pos 0) ≡ round (pos 2500 +ℤ (pos 5004 +ℤ pos 0)))
unfolding comparing scaled-IsDecimalJs
calculate_supplier_costs-sums_example =
    calculate_supplier_costs-sums scaled-IsDecimalJs 3 "EUR" shipped shipped_cost (pos 2500)
      (pos 5004 ∷ []) (pos 500 ∷ []) shipped_calculated (omega arith) (refl, (omega arith, refl))
      ((refl, (omega arith, refl)), tt) ((refl, (omega arith, refl)), tt)
