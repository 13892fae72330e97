-- ===== src/Tests/Insights.antt =====
-- The outcomes of a comparison of four suppliers.
use landed_compare.Domain.Scaled.Laws.{scaled-IsDecimalJs}
use landed_compare.Prelude.Int.{scale_ℤ}
use landed_compare.Prelude.Maps.{lookup}
use landed_compare.Comparison.Insights.Rounds.{AreUnits}
use landed_compare.Prelude.{
  str_eq, if◌then◌else◌, arith, inl, inr, Bool-cases, ◌≡◌, refl, none, some, List, [], ◌∷◌, String,
  ℕ, All,
}
use landed_compare.Errors.{ok}
use landed_compare.Domain.Scaled.{scaled_js}
use landed_compare.Domain.Scaled.Text.{Scaled}
use landed_compare.Domain.Money
use landed_compare.Comparison.Ranking.{RankedSupplier, RankingResult}
use landed_compare.Comparison.Evaluation.{
  SupplierEvaluation, stopped, complete, incomplete, invalid, missing_quote,
}
use landed_compare.Comparison.Insights.{
  merchandise_of, ComparisonInsight, lowest_calculated_landed_cost,
  lowest_merchandise_not_lowest_landed_cost, incomplete_quote, invalid_quote, Evaluations,
  find_unique_merchandise_leader, comparability, build_comparison_insights,
}
use landed_compare.Comparison.Insights.Laws.{Justified, build_comparison_insights-Justified}
use landed_compare.Tests.Running.{euros, comparing}

abbrev ranked_at : String → ℕ → ℕ → RankedSupplier Scaled
ranked_at id amount rank = record {
  supplier_id = id;
  ranking_amount = euros amount 2;
  rank = rank;
  difference_amount = euros 0 2;
  percentage_difference = none;
  exact_percentage_difference = none;
}

abbrev ranking : RankingResult Scaled
ranking = record {
  ranked = ranked_at "acme" 2000 1 ∷ ranked_at "bolt" 2500 2 ∷ [];
  lowest_supplier_ids = "acme" ∷ [];
  lowest_ranking_amount = some (euros 2000 2);
}

abbrev priced : String → ℕ → SupplierEvaluation Scaled
priced id amount = record (stopped id complete [] none none) {
  merchandise_ranking_amount = some (euros amount 2);
}

abbrev suppliers : List String
suppliers = "acme" ∷ "bolt" ∷ "carl" ∷ "dora" ∷ []

abbrev evaluations : Evaluations Scaled
evaluations =
    ("acme", priced "acme" 1500)
    ∷ ("bolt", priced "bolt" 1000)
    ∷ ("carl", stopped "carl" incomplete (missing_quote ∷ []) none (some ("bolts" ∷ [])))
    ∷ ("dora", stopped "dora" invalid [] none none)
    ∷ []

abbrev insights : List (ComparisonInsight Scaled)
insights =
    lowest_calculated_landed_cost "acme" (euros 2000 2)
    ∷ lowest_merchandise_not_lowest_landed_cost ("bolt" ∷ []) ("acme" ∷ []) (euros 1000 2)
        (euros 2000 2)
    ∷ incomplete_quote "carl" ("bolts" ∷ [])
    ∷ invalid_quote "dora" []
    ∷ []

insights_built : build_comparison_insights suppliers evaluations ranking ≡ ok insights
unfolding comparing find_unique_merchandise_leader Money.is_less_than comparability stopped
insights_built = refl

abbrev merchandise_units : String → ℕ
merchandise_units id = if str_eq "acme" id then 1500 else 1000

are_units : AreUnits scaled-IsDecimalJs 2 "EUR" evaluations merchandise_units
unfolding merchandise_of lookup stopped scaled-IsDecimalJs scale_ℤ
are_units id amount h = elim (Bool-cases (str_eq "acme" id)) [
  | inl a ↦
      let same : euros 1500 2 ≡ amount = ground (arith, a, h) in
      rw (a, ← same) (refl, (omega arith, refl))
  | inr a ↦ elim (Bool-cases (str_eq "bolt" id)) [
    | inl b ↦
        let same : euros 1000 2 ≡ amount = ground (arith, a, b, h) in
        rw (a, ← same) (refl, (omega arith, refl))
    | inr b ↦ absurd (ground (arith, a, b, h))
  ]
]

build_comparison_insights-Justified_example :
    All
      (Justified scaled-IsDecimalJs 2 "EUR" merchandise_units suppliers evaluations ranking)
      insights
build_comparison_insights-Justified_example =
    build_comparison_insights-Justified scaled-IsDecimalJs 2 "EUR" merchandise_units suppliers
      evaluations ranking are_units insights insights_built
