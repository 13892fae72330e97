-- ===== src/Comparison/Insights.antt =====
-- `src/comparison/ComparisonInsights.ts`: the outcomes that a comparison reports, in their order.
pub mod Rounds
pub mod Leader
pub mod Laws
use landed_compare.Prelude.{String, Option, none, some, List, [], ◌∷◌, ◌++◌, if◌then◌else◌}
use landed_compare.Prelude.Maps.{contains, lookup}
use landed_compare.Errors.{Result, ok, ◌>>=◌}
use landed_compare.Domain.DecimalJs.{DecimalJs}
use landed_compare.Domain.Money
use landed_compare.Domain.Money.{Money}
use landed_compare.Comparison.Ranking.{RankedSupplier, RankingResult}
use landed_compare.Comparison.Evaluation.{
  SupplierEvaluation, SupplierIssueCode, SupplierStatus, incomplete, invalid,
}

pub data ComparisonInsight (D : Type 0) : Type 0 where
  no_comparable_suppliers : ComparisonInsight D
  only_comparable_supplier : String → Money D → ComparisonInsight D
  lowest_calculated_landed_cost : String → Money D → ComparisonInsight D
  tied_lowest_calculated_landed_cost : List String → Money D → ComparisonInsight D
  lowest_merchandise_not_lowest_landed_cost :
      List String → List String → Money D → Money D → ComparisonInsight D
  incomplete_quote : String → List String → ComparisonInsight D
  invalid_quote : String → List SupplierIssueCode → ComparisonInsight D

abbrev pub Evaluations : Type 0 → Type 0
Evaluations D = List (String × SupplierEvaluation D)

-- `evaluation.missingRequirementIds ?? []`
unfoldable pub listed : Option (List String) → List String
listed none = []
listed (some ids) = ids

-- The variables of the loop in `findUniqueMerchandiseLeader`.
pub record Leaders (D : Type 0) : Type 0 where
  pub lowest_amount : Option (Money D)
  pub leaders : List String

module _ {D : Type 0} ⦃j : DecimalJs D⦄ where
  amount_found : Option (SupplierEvaluation D) → Option (Money D)
  amount_found none = none
  amount_found (some e) = e.merchandise_ranking_amount

  unfoldable pub merchandise_of : Evaluations D → String → Option (Money D)
  unfolding amount_found
  merchandise_of evaluations id = amount_found (lookup id evaluations)

  unfoldable pub against_lowest :
      String → Money D → Option (Money D) → List String → Result (Leaders D)
  against_lowest id amount none leaders =
      ok (record { lowest_amount = some amount; leaders = id ∷ [] })
  against_lowest id amount (some lowest) leaders = do
    less ← Money.is_less_than amount lowest
    ok (
        if less
        then record { lowest_amount = some amount; leaders = id ∷ [] }
        else if Money.equals amount lowest
        then record { lowest_amount = some lowest; leaders = leaders ++ (id ∷ []) }
        else record { lowest_amount = some lowest; leaders = leaders })

  unfoldable pub lead : Option (Money D) → String → Leaders D → Result (Leaders D)
  unfolding against_lowest
  lead none id state = ok state
  lead (some amount) id state = against_lowest id amount state.lowest_amount state.leaders

  unfoldable pub lead_all : Evaluations D → Leaders D → List (RankedSupplier D) → Result (Leaders D)
  unfolding lead merchandise_of
  lead_all evaluations state [] = ok state
  lead_all evaluations state (entry ∷ entries) =
      lead (merchandise_of evaluations entry.supplier_id) entry.supplier_id state >>= λ state'.
      lead_all evaluations state' entries

  unfoldable pub only_leader : Option (Money D) → List String → Option (String × Money D)
  only_leader (some amount) (id ∷ []) = some (id, amount)
  only_leader _ _ = none

  unfoldable pub find_unique_merchandise_leader :
      RankingResult D → Evaluations D → Result (Option (String × Money D))
  unfolding lead_all only_leader
  find_unique_merchandise_leader ranking evaluations = do
    final ← lead_all evaluations (record { lowest_amount = none; leaders = [] }) ranking.ranked
    ok (only_leader final.lowest_amount final.leaders)

  -- The insight on the winner among two suppliers or more. The lowest amount is there whenever
  -- there is a ranked supplier, as the source asserts by `!`.
  unfoldable pub winner : List String → Option (Money D) → List (ComparisonInsight D)
  winner ids none = []
  winner (id ∷ []) (some amount) = lowest_calculated_landed_cost id amount ∷ []
  winner ids (some amount) = tied_lowest_calculated_landed_cost ids amount ∷ []

  unfoldable pub comparability :
      RankingResult D → List (RankedSupplier D) → List (ComparisonInsight D)
  unfolding winner
  comparability ranking [] = no_comparable_suppliers ∷ []
  comparability ranking (only ∷ []) =
      only_comparable_supplier only.supplier_id only.ranking_amount ∷ []
  comparability ranking (first ∷ second ∷ rest) =
      winner ranking.lowest_supplier_ids ranking.lowest_ranking_amount

  unfoldable pub flip_of :
      RankingResult D → Option (String × Money D) → Option (Money D) → List (ComparisonInsight D)
  flip_of ranking (some (id, amount)) (some lowest) =
      if contains id ranking.lowest_supplier_ids
      then []
      else lowest_merchandise_not_lowest_landed_cost (id ∷ []) ranking.lowest_supplier_ids amount
          lowest
        ∷ []
  flip_of ranking _ _ = []

  unfoldable pub merchandise_flip :
      RankingResult D
      → Evaluations D
      → List (RankedSupplier D)
      → Result (List (ComparisonInsight D))
  unfolding flip_of
  merchandise_flip ranking evaluations (first ∷ second ∷ rest) = do
    leader ← find_unique_merchandise_leader ranking evaluations
    ok (flip_of ranking leader ranking.lowest_ranking_amount)
  merchandise_flip ranking evaluations _ = ok []

  unfoldable pub when_incomplete :
      String → SupplierStatus → SupplierEvaluation D → List (ComparisonInsight D)
  unfolding listed
  when_incomplete id incomplete e = incomplete_quote id (listed e.missing_requirement_ids) ∷ []
  when_incomplete id _ e = []

  unfoldable pub when_invalid :
      String → SupplierStatus → SupplierEvaluation D → List (ComparisonInsight D)
  when_invalid id invalid e = invalid_quote id e.issues ∷ []
  when_invalid id _ e = []

  unfoldable pub when_found_incomplete :
      String → Option (SupplierEvaluation D) → List (ComparisonInsight D)
  unfolding when_incomplete
  when_found_incomplete id none = []
  when_found_incomplete id (some e) = when_incomplete id e.status e

  unfoldable pub incomplete_insight : Evaluations D → String → List (ComparisonInsight D)
  unfolding when_found_incomplete
  incomplete_insight evaluations id = when_found_incomplete id (lookup id evaluations)

  unfoldable pub when_found_invalid :
      String → Option (SupplierEvaluation D) → List (ComparisonInsight D)
  unfolding when_invalid
  when_found_invalid id none = []
  when_found_invalid id (some e) = when_invalid id e.status e

  unfoldable pub invalid_insight : Evaluations D → String → List (ComparisonInsight D)
  unfolding when_found_invalid
  invalid_insight evaluations id = when_found_invalid id (lookup id evaluations)

  -- A loop over the suppliers that pushes what `f` gives for each.
  unfoldable pub each :
      (String → List (ComparisonInsight D)) → List String → List (ComparisonInsight D)
  each f [] = []
  each f (id ∷ ids) = f id ++ each f ids

  unfoldable pub build_comparison_insights :
      List String → Evaluations D → RankingResult D → Result (List (ComparisonInsight D))
  unfolding merchandise_flip incomplete_insight invalid_insight each
  build_comparison_insights suppliers_in_order evaluations ranking = do
    flip ← merchandise_flip ranking evaluations ranking.ranked
    ok (
        comparability ranking ranking.ranked
        ++ (flip
            ++ (each (incomplete_insight evaluations) suppliers_in_order
                ++ each (invalid_insight evaluations) suppliers_in_order)))
