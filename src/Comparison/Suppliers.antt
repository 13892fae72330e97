-- ===== src/Comparison/Suppliers.antt =====
-- `src/comparison/SupplierComparison.ts`: the comparison of a project's suppliers.

pub mod Ranks
pub mod Laws
use landed_compare.Prelude.{ℕ, String, Option, none, some, List, [], ◌∷◌, ◌++◌, map}
use landed_compare.Prelude.Maps.{lookup, insert, insert_all}
use landed_compare.Errors.{Result, ok, err, ◌>>=◌, ◌>>◌, traverse, type_error}
use landed_compare.Domain.DecimalJs.{DecimalJs}
use landed_compare.Domain.Money.{Money}
use landed_compare.Domain.Project.{Project, Supplier, RequirementItem, Quote}
use landed_compare.Calculation.AdditionalCost.{AdditionalCost}
use landed_compare.Calculation.CurrencyMinorUnit.{resolve_minor_unit}
use landed_compare.Calculation.ExchangeRate.{ExchangeRateTable}
use landed_compare.Calculation.Percentage.{Percentage}
use landed_compare.Comparison.Structure.{
  CostList, CostLists, array, nullish, other_value, validate_comparison_structure, supplier_ids,
}
use landed_compare.Comparison.Insights.{ComparisonInsight, build_comparison_insights}
use landed_compare.Comparison.Ranking.{RankableSupplier, RankedSupplier, rank_complete_suppliers}
use landed_compare.Comparison.Evaluation.{
  SupplierEvaluation, SupplierStatus, complete, evaluate_supplier,
}

pub record SupplierComparisonInput (D : Type 0) : Type 0 where
  pub project : Project D
  pub exchange_rate_table : ExchangeRateTable D
  pub costs_by_supplier_id : CostLists D
  pub minor_unit_overrides : List (String × ℕ)

pub record SupplierComparisonEntry (D : Type 0) : Type 0 where
  pub evaluation : SupplierEvaluation D
  pub rank : Option ℕ
  pub difference_from_lowest : Option (Money D)
  pub percentage_difference_from_lowest : Option (Percentage D)
  pub exact_percentage_difference_from_lowest : Option (Percentage D)

pub record SupplierComparisonResult (D : Type 0) : Type 0 where
  pub base_currency : String
  pub minor_unit : ℕ
  pub supplier_results : List (SupplierComparisonEntry D)
  pub ranked_complete_suppliers : List (RankedSupplier D)
  pub lowest_supplier_ids : List String
  pub insights : List (ComparisonInsight D)

module _ {D : Type 0} where
  abbrev pub quotes_of : String → List (String × List (Quote D)) → List (Quote D)
  quotes_of id m = elim (lookup id m) [ none ↦ [] | some quotes ↦ quotes ]

  group_from : List (String × List (Quote D)) → List (Quote D) → List (String × List (Quote D))
  group_from m [] = m
  group_from m (q ∷ qs) =
      group_from (insert q.supplier_id (quotes_of q.supplier_id m ++ (q ∷ [])) m) qs

  unfoldable pub group_quotes_by_supplier_id : List (Quote D) → List (String × List (Quote D))
  unfolding group_from
  group_quotes_by_supplier_id = group_from []

  -- A value that is no array fails where it is read as one; the structural validation comes first.
  read_costs : Option (CostList D) → Result (List (AdditionalCost D))
  read_costs none = ok []
  read_costs (some (array costs)) = ok costs
  read_costs (some nullish) = ok []
  read_costs (some other_value) = err type_error

  unfoldable pub costs_for_supplier : CostLists D → String → Result (List (AdditionalCost D))
  unfolding read_costs
  costs_for_supplier none id = ok []
  costs_for_supplier (some lists) id = read_costs (lookup id lists)

  rankable_of : String → SupplierStatus → Option (Money D) → List (RankableSupplier D)
  rankable_of id complete (some amount) = record { supplier_id = id; ranking_amount = amount } ∷ []
  rankable_of id _ _ = []

  -- `filter(isRankableComplete)` and the `map` after it.
  unfoldable pub rankable : List (SupplierEvaluation D) → List (RankableSupplier D)
  unfolding rankable_of
  rankable [] = []
  rankable (e ∷ es) = rankable_of e.supplier_id e.status e.ranking_amount ++ rankable es

  abbrev pub evaluation_entry : SupplierEvaluation D → String × SupplierEvaluation D
  evaluation_entry e = (e.supplier_id, e)

  abbrev pub ranked_entry : RankedSupplier D → String × RankedSupplier D
  ranked_entry r = (r.supplier_id, r)

  enriched : SupplierEvaluation D → Option (RankedSupplier D) → SupplierComparisonEntry D
  enriched evaluation none = record {
    evaluation = evaluation;
    rank = none;
    difference_from_lowest = none;
    percentage_difference_from_lowest = none;
    exact_percentage_difference_from_lowest = none;
  }
  enriched evaluation (some info) = record {
    evaluation = evaluation;
    rank = some info.rank;
    difference_from_lowest = some info.difference_amount;
    percentage_difference_from_lowest = info.percentage_difference;
    exact_percentage_difference_from_lowest = info.exact_percentage_difference;
  }

  unfoldable pub comparison_entry :
      List (String × RankedSupplier D) → SupplierEvaluation D → SupplierComparisonEntry D
  unfolding enriched
  comparison_entry ranks evaluation = enriched evaluation (lookup evaluation.supplier_id ranks)

module _ {D : Type 0} ⦃j : DecimalJs D⦄ where
  unfoldable pub evaluate_one :
      SupplierComparisonInput D
      → ℕ
      → List (String × List (Quote D))
      → Supplier
      → Result (SupplierEvaluation D)
  evaluate_one input minor_unit quotes supplier = do
    costs ← costs_for_supplier input.costs_by_supplier_id supplier.id
    evaluate_supplier (record {
      supplier = supplier;
      quotes_for_supplier = quotes_of supplier.id quotes;
      requirements = input.project.requirements;
      costs = costs;
      exchange_rate_table = input.exchange_rate_table;
      minor_unit = minor_unit;
    })

  unfoldable pub compare_suppliers : SupplierComparisonInput D → Result (SupplierComparisonResult D)
  compare_suppliers input = do
    let project = input.project
    validate_comparison_structure project input.exchange_rate_table input.costs_by_supplier_id
    minor_unit ← resolve_minor_unit project.base_currency input.minor_unit_overrides
    evaluations ←
        traverse (evaluate_one input minor_unit (group_quotes_by_supplier_id project.quotes))
          project.suppliers
    ranking ← rank_complete_suppliers (rankable evaluations)
    insights ←
        build_comparison_insights (supplier_ids project.suppliers)
          (insert_all (map evaluation_entry evaluations) []) ranking
    let ranks = insert_all (map ranked_entry ranking.ranked) []
    ok (record {
      base_currency = project.base_currency;
      minor_unit = minor_unit;
      supplier_results = map (comparison_entry ranks) evaluations;
      ranked_complete_suppliers = ranking.ranked;
      lowest_supplier_ids = ranking.lowest_supplier_ids;
      insights = insights;
    })
