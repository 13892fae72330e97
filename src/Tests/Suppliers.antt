-- ===== src/Tests/Suppliers.antt =====
-- Suppliers evaluated and compared at concrete amounts.
use landed_compare.Prelude.{ℕ, ◌≡◌, ◌↔◌, refl, false, none, some, List, [], ◌∷◌, Option, All, arith}
use landed_compare.Prelude.Int.{pos, is_neg}
use landed_compare.Errors.{ok}
use landed_compare.Domain.Money.Sums.{sum_ℤ}
use landed_compare.Domain.Quantity.{Quantity}
use landed_compare.Domain.Scaled.{scaled_js}
use landed_compare.Domain.Scaled.Text.{Scaled}
use landed_compare.Domain.Scaled.Laws.{scaled-IsDecimalJs}
use landed_compare.Domain.Project.{Supplier, RequirementItem, QuoteItem, Quote, Project}
use landed_compare.Comparison.Structure.{validate_comparison_structure}
use landed_compare.Comparison.Structure.Laws.{IsComparable, validate-IsComparable}
use landed_compare.Comparison.Evaluation.{
  SupplierEvaluation, EvaluateSupplierInput, evaluate_supplier, stopped, invalid, incomplete,
  missing_quote,
}
use landed_compare.Comparison.Evaluation.Lines.{SupplierLineResult}
use landed_compare.Comparison.Evaluation.Laws.{Judged, evaluate_supplier-Judged}
use landed_compare.Comparison.Evaluation.Complete.{evaluate_supplier-AddUp}
use landed_compare.Comparison.Evaluation.Incomplete.{Missing, evaluate_supplier-Missing}
use landed_compare.Comparison.Suppliers.{
  SupplierComparisonInput, SupplierComparisonResult, compare_suppliers,
}
use landed_compare.Comparison.Suppliers.Laws.{Compared, compare_suppliers-Compared}
use landed_compare.Tests.Running.{decimal, euros, in_euros, value_of, comparing}

abbrev quantity : ℕ → Quantity Scaled
quantity n = record { value = decimal n 0 }

abbrev bolts : RequirementItem Scaled
bolts = record {
  id = "bolts";
  product_name = "Bolts";
  sku = none;
  product_id = none;
  required_quantity = quantity 10;
  comparison_unit = "piece";
}

abbrev bolt_price : QuoteItem Scaled
bolt_price = record {
  id = "item";
  requirement_id = "bolts";
  quoted_unit_price = euros 25 1;
  quoted_unit = "piece";
  units_per_quoted_unit = none;
  moq = none;
}

abbrev quote_of : List (QuoteItem Scaled) → Quote Scaled
quote_of items = record {
  id = "quote";
  supplier_id = "acme";
  currency = "EUR";
  quote_date = none;
  incoterm = none;
  payment_terms = none;
  lead_time = none;
  warranty = none;
  notes = none;
  items = items;
}

abbrev acme : Supplier
acme = record { id = "acme"; display_name = "Acme" }

abbrev offer_of : List (Quote Scaled) → EvaluateSupplierInput Scaled
offer_of quotes = record {
  supplier = acme;
  quotes_for_supplier = quotes;
  requirements = bolts ∷ [];
  costs = [];
  exchange_rate_table = in_euros;
  minor_unit = 2;
}

abbrev offer : EvaluateSupplierInput Scaled
offer = offer_of (quote_of (bolt_price ∷ []) ∷ [])

abbrev evaluated : SupplierEvaluation Scaled
evaluated = value_of (stopped "" invalid [] none none) (evaluate_supplier offer)

offer_evaluated : evaluate_supplier offer ≡ ok evaluated
unfolding comparing
offer_evaluated = refl

abbrev value_of_some : {A : Type 0} → A → Option A → A
value_of_some default (some a) = a
value_of_some default none = default

abbrev offer_lines : List (SupplierLineResult Scaled)
offer_lines = value_of_some [] evaluated.lines

evaluate_supplier-AddUp_example :
    (sum_ℤ (pos 2500 ∷ []) ≡ pos 2500) × All (λ z. is_neg z ≡ false) (pos 2500 ∷ [])
unfolding comparing scaled-IsDecimalJs
evaluate_supplier-AddUp_example =
    evaluate_supplier-AddUp scaled-IsDecimalJs 2 "EUR" offer evaluated offer_lines (euros 2500 2)
      (euros 2500 2 ∷ []) (pos 2500 ∷ []) (pos 2500) offer_evaluated refl refl refl refl
      ((refl, (omega arith, refl)), tt) (refl, (omega arith, refl))

evaluate_supplier-Judged_example : Judged offer (evaluate_supplier offer)
evaluate_supplier-Judged_example = evaluate_supplier-Judged offer

evaluate_supplier-Missing_example :
    Missing
      (offer_of [])
      (stopped "acme" incomplete (missing_quote ∷ []) none (some ("bolts" ∷ [])))
unfolding evaluate_supplier stopped
evaluate_supplier-Missing_example =
    evaluate_supplier-Missing (offer_of [])
      (stopped "acme" incomplete (missing_quote ∷ []) none (some ("bolts" ∷ []))) refl refl

abbrev project : Project Scaled
project = record {
  id = "project";
  name = "Fasteners";
  base_currency = "EUR";
  created_at = "2026-01-01";
  updated_at = "2026-01-02";
  requirements = bolts ∷ [];
  suppliers = acme ∷ [];
  quotes = quote_of (bolt_price ∷ []) ∷ [];
}

validate-IsComparable_example :
    (validate_comparison_structure project in_euros none ≡ ok tt)
    ↔ IsComparable project in_euros none
validate-IsComparable_example = validate-IsComparable project in_euros none

abbrev comparison_input : SupplierComparisonInput Scaled
comparison_input = record {
  project = project;
  exchange_rate_table = in_euros;
  costs_by_supplier_id = none;
  minor_unit_overrides = [];
}

abbrev comparison : SupplierComparisonResult Scaled
comparison =
    value_of
      (record {
        base_currency = "";
        minor_unit = 0;
        supplier_results = [];
        ranked_complete_suppliers = [];
        lowest_supplier_ids = [];
        insights = [];
      })
      (compare_suppliers comparison_input)

project_compared : compare_suppliers comparison_input ≡ ok comparison
unfolding comparing
project_compared = refl

compare_suppliers-Compared_example : Compared comparison_input comparison
compare_suppliers-Compared_example =
    compare_suppliers-Compared comparison_input comparison project_compared
