-- ===== src/Comparison/Ranking.antt =====
-- `src/comparison/Ranking.ts`: dense ranks of the complete suppliers by their settled totals.
pub mod Laws
pub mod Ids
use landed_compare.Prelude.{
  ℕ, suc, ◌+◌, String, Bool, true, false, not, ◌||◌, Option, none, some, List, [], ◌∷◌, map, filter,
  ◌==◌, str_eq, if◌then◌else◌, Ordering, compare, then_by,
}
use landed_compare.Prelude.Sorting.{sort_by}
use landed_compare.Errors.{
  Error, Result, ok, err, ◌>>=◌, ◌>>◌, throw_if, for_each, traverse, ranking_invariant,
  currency_mismatch,
}
use landed_compare.Domain.DecimalJs.{DecimalJs}
use landed_compare.Domain.Decimal.{decimal_precision, parse_exact_decimal, round_half_up}
use landed_compare.Domain.Money
use landed_compare.Domain.Money.{Money}
use landed_compare.Calculation.Percentage
use landed_compare.Calculation.Percentage.{Percentage}

abbrev pub percentage_difference_decimals : ℕ
percentage_difference_decimals = 2

pub record RankableSupplier (D : Type 0) : Type 0 where
  pub supplier_id : String
  pub ranking_amount : Money D

-- A supplier with its place in the input.
pub record Placed (D : Type 0) : Type 0 where
  pub supplier : RankableSupplier D
  pub open supplier use *
  pub order : ℕ

pub record DenseRanked (D : Type 0) : Type 0 where
  pub placed : Placed D
  pub open placed use *
  pub rank : ℕ

pub record RankedSupplier (D : Type 0) : Type 0 where
  pub supplier_id : String
  pub ranking_amount : Money D
  pub rank : ℕ
  pub difference_amount : Money D
  pub percentage_difference : Option (Percentage D)
  pub exact_percentage_difference : Option (Percentage D)

pub record RankingResult (D : Type 0) : Type 0 where
  pub ranked : List (RankedSupplier D)
  pub lowest_supplier_ids : List String
  pub lowest_ranking_amount : Option (Money D)

module _ {D : Type 0} ⦃j : DecimalJs D⦄ where
  unfoldable pub assert_not_negative : RankableSupplier D → Result (Unit {0})
  assert_not_negative s = throw_if (Money.is_negative s.ranking_amount) ranking_invariant

  -- A sort compares neighbours of the sorted order, so two currencies are met in some comparison.
  same_currency : String → RankableSupplier D → Result (Unit {0})
  same_currency currency s =
      throw_if (not (str_eq s.ranking_amount.currency currency)) currency_mismatch

  unfoldable pub with_order : ℕ → List (RankableSupplier D) → List (Placed D)
  with_order order [] = []
  with_order order (s ∷ ss) = record { supplier = s; order = order } ∷ with_order (suc order) ss

  unfoldable pub by_amount : Placed D → Placed D → Ordering
  by_amount a b =
      then_by (j.compared_to a.ranking_amount.amount b.ranking_amount.amount)
        (compare a.order b.order)

  starts_group : Option (Money D) → Money D → Bool
  starts_group none amount = true
  starts_group (some previous) amount = not (Money.equals amount previous)

  -- The loop over the sorted suppliers, with `rank` and `previousAmount`.
  unfoldable pub dense_rank : ℕ → Option (Money D) → List (Placed D) → List (DenseRanked D)
  unfolding starts_group
  dense_rank rank previous [] = []
  dense_rank rank previous (p ∷ ps) =
      let fresh = starts_group previous p.ranking_amount in
      let rank' = if fresh then suc rank else rank in
      let previous' = if fresh then some p.ranking_amount else previous in
      record { placed = p; rank = rank' } ∷ dense_rank rank' previous' ps

  unfoldable pub ranked_suppliers : List (RankableSupplier D) → List (DenseRanked D)
  ranked_suppliers suppliers = dense_rank 0 none (sort_by by_amount (with_order 0 suppliers))

  zero_percentages : Result (Option (Percentage D) × Option (Percentage D))
  zero_percentages = do
    published ← Percentage.from_string "0.00"
    exact ← Percentage.from_string "0"
    ok (some published, some exact)

  unfoldable pub percentage_difference :
      Money D → Money D → Result (Option (Percentage D) × Option (Percentage D))
  unfolding zero_percentages
  percentage_difference difference lowest =
      if Money.is_zero lowest
      then (if Money.is_zero difference then zero_percentages else ok (none, none))
      else (parse_exact_decimal (Money.to_decimal_string difference) >>= λ numerator.
          parse_exact_decimal (Money.to_decimal_string lowest) >>= λ denominator.
          let ratio =
            j.times decimal_precision (j.divided_by decimal_precision numerator denominator)
              (j.of_number 100) in
          let rounded = round_half_up ratio percentage_difference_decimals in
          Percentage.from_string (j.to_fixed_at percentage_difference_decimals rounded)
          >>= λ published. Percentage.from_string (j.to_fixed ratio) >>= λ exact.
              ok (some published, some exact))

  unfoldable pub published : Money D → DenseRanked D → Result (RankedSupplier D)
  published lowest entry = do
    difference ← Money.subtract entry.ranking_amount lowest
    percentages ← percentage_difference difference lowest
    ok (record {
      supplier_id = entry.supplier_id;
      ranking_amount = entry.ranking_amount;
      rank = entry.rank;
      difference_amount = difference;
      percentage_difference = percentages.0;
      exact_percentage_difference = percentages.1;
    })

  unfoldable pub lowest_ids : List (DenseRanked D) → List String
  lowest_ids entries = map (λ e. e.supplier_id) (filter (λ e. e.rank == 1) entries)

  publish : List (DenseRanked D) → Result (RankingResult D)
  publish [] = ok (record { ranked = []; lowest_supplier_ids = []; lowest_ranking_amount = none })
  publish (first ∷ rest) = do
    ranked ← traverse (published first.ranking_amount) (first ∷ rest)
    ok (record {
      ranked = ranked;
      lowest_supplier_ids = lowest_ids (first ∷ rest);
      lowest_ranking_amount = some first.ranking_amount;
    })

  one_currency : List (RankableSupplier D) → Result (Unit {0})
  one_currency [] = ok tt
  one_currency (s ∷ ss) = for_each (same_currency s.ranking_amount.currency) ss

  unfoldable pub rank_complete_suppliers : List (RankableSupplier D) → Result (RankingResult D)
  unfolding publish one_currency same_currency
  rank_complete_suppliers suppliers = do
    for_each assert_not_negative suppliers
    one_currency suppliers
    publish (ranked_suppliers suppliers)
