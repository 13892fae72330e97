-- ===== src/Tests/Amounts.antt =====
-- Decimals, settlements, rankings and costs at concrete amounts.
use landed_compare.Errors.{err, invalid_percentage_base}
use landed_compare.Prelude.{
  ◌≢◌, ℕ, String, true, false, none, some, List, [], ◌∷◌, refl, ◌≡◌, arith,
}
use landed_compare.Prelude.Int.{pos, ◌+ℤ◌, ◌-ℤ◌, ◌*ℤ◌, scale_ℤ}
use landed_compare.Prelude.Rounding.{nearest}
use landed_compare.Errors.{ok}
use landed_compare.Domain.DecimalJs.{Denotes}
use landed_compare.Domain.Decimal.{add_exact, subtract_exact, multiply_exact}
use landed_compare.Domain.Decimal.Exact.{
  add_exact-Denotes, subtract_exact-Denotes, multiply_exact-Denotes,
}
use landed_compare.Domain.Money.{Money}
use landed_compare.Domain.Money.Laws.{Worth}
use landed_compare.Domain.Scaled.{scaled_js}
use landed_compare.Domain.Scaled.Text.{Scaled}
use landed_compare.Domain.Scaled.Laws.{scaled-IsDecimalJs}
use landed_compare.Calculation.Allocation.Distribution.{AllocationSlot, rounds}
use landed_compare.Calculation.Allocation.Distribution.HandOuts.{Settled, hand_out-Settled}
use landed_compare.Calculation.CostCalculation.Settlement.{
  EffectPool, PoolTargets, resolve_pool_targets, no_members,
}
use landed_compare.Calculation.CostCalculation.Settlement.Targets.{
  resolve_pool_targets-Reach, Reach,
}
use mathlib.Core.List.{Perm}
use landed_compare.Prelude.{All, map, ◌≤◌}
use landed_compare.Prelude.Int.{magnitude}
use landed_compare.Comparison.Ranking.{RankableSupplier, Placed, with_order, ranked_suppliers}
use landed_compare.Comparison.Ranking.Laws.{ranked_suppliers-Agree, Agree, NoGap}
use landed_compare.Calculation.AdditionalCost.{
  AdditionalCost, PercentageBasis, PercentageBase, CostKind, CostCategory, AllocationMethod,
  evaluation_stage_of, assert_valid_additional_cost, assert_percentage_is_usable,
  allowed_percentage_bases, base_eq,
}
use landed_compare.Calculation.CostCalculation.Stages.{evaluate_stages-Based}
use landed_compare.Calculation.CostCalculation.Supplier.{evaluate_stages}
use landed_compare.Tests.Running.{in_euros}

abbrev decimal : ℕ → ℕ → Scaled
decimal units places = record { units = pos units; places = places }

abbrev euros : ℕ → ℕ → Money Scaled
euros units places = record { amount = decimal units places; currency = "EUR" }

-- The sum of 12.5 and 0.25 in thousandths.
add_exact-Denotes_example :
    Denotes scaled-IsDecimalJs.numerator 3
      (add_exact (decimal 125 1) (decimal 25 2))
      (pos 12500 +ℤ pos 250)
unfolding scaled-IsDecimalJs scale_ℤ
add_exact-Denotes_example =
    add_exact-Denotes scaled-IsDecimalJs 3 (decimal 125 1) (decimal 25 2) {x = pos 12500}
      {y = pos 250} (omega arith, refl) (omega arith, refl)

subtract_exact-Denotes_example :
    Denotes scaled-IsDecimalJs.numerator 3
      (subtract_exact (decimal 25 2) (decimal 125 1))
      (pos 250 -ℤ pos 12500)
unfolding scaled-IsDecimalJs scale_ℤ
subtract_exact-Denotes_example =
    subtract_exact-Denotes scaled-IsDecimalJs 3 (decimal 25 2) (decimal 125 1) {x = pos 250}
      {y = pos 12500} (omega arith, refl) (omega arith, refl)

multiply_exact-Denotes_example :
    Denotes scaled-IsDecimalJs.numerator 5
      (multiply_exact (decimal 125 1) (decimal 25 2))
      (pos 1250 *ℤ pos 250)
unfolding scaled-IsDecimalJs scale_ℤ
multiply_exact-Denotes_example =
    multiply_exact-Denotes scaled-IsDecimalJs 2 3 (decimal 125 1) (decimal 25 2) {x = pos 1250}
      {y = pos 250} (omega arith, refl) (omega arith, refl)

abbrev surcharge_pool : EffectPool Scaled
surcharge_pool = record { indices = 0 ∷ []; magnitudes = euros 49 4 ∷ []; total = euros 49 4 }

abbrev empty_pool : EffectPool Scaled
empty_pool = record { indices = []; magnitudes = []; total = euros 0 0 }

-- Merchandise of 10.0049 and a surcharge of 0.0049 settle at 10.00 and 10.01.
resolve_pool_targets-Reach_example :
    (t : PoolTargets Scaled) × (resolve_pool_targets (euros 1 2) surcharge_pool empty_pool 2 ≡ ok t)
    × Reach scaled-IsDecimalJs 2 "EUR"
        (nearest 100 49)
        (nearest 100 0)
        (pos (nearest 100 100098) -ℤ pos (nearest 100 100049))
        t
unfolding scaled-IsDecimalJs scale_ℤ no_members ◌-ℤ◌
resolve_pool_targets-Reach_example =
    resolve_pool_targets-Reach scaled-IsDecimalJs 2 4 "EUR" (euros 1 2) surcharge_pool empty_pool
      100049 100098 49 0 (omega arith) refl (refl, (omega arith, refl)) (refl, (omega arith, refl))
      (λ h. absurd (cc)) (λ h. refl) (refl, (omega arith, refl))

abbrev offer : String → ℕ → RankableSupplier Scaled
offer id units = record { supplier_id = id; ranking_amount = euros units 2 }

abbrev offers : List (RankableSupplier Scaled)
offers = offer "a" 300 ∷ offer "b" 200 ∷ offer "c" 300 ∷ []

abbrev units_of : RankableSupplier Scaled → ℕ
units_of r = magnitude r.ranking_amount.amount.units

ranked_suppliers-Agree_example :
    let out = ranked_suppliers offers in
    let value = λ (p : Placed Scaled). units_of p.supplier in
    Perm (map (λ e. e.placed) out) (with_order 0 offers)
    × Agree scaled-IsDecimalJs 2 "EUR" value out
    × NoGap scaled-IsDecimalJs 2 "EUR" value 0 out
    × All (λ e. 1 ≤ e.rank) out
unfolding scaled-IsDecimalJs scale_ℤ
ranked_suppliers-Agree_example =
    ranked_suppliers-Agree scaled-IsDecimalJs 2 "EUR" units_of offers (
      (refl, (omega arith, refl)),
      ((refl, (omega arith, refl)), ((refl, (omega arith, refl)), tt)),
    )

abbrev five_percent : PercentageBasis Scaled
five_percent = record {
  rate = record { rate = decimal 5 0 };
  base = PercentageBase.merchandise_after_discount;
}

abbrev insurance_cost : AdditionalCost Scaled
insurance_cost = record {
  id = "insurance";
  kind = CostKind.cost;
  category = CostCategory.insurance;
  label = none;
  fixed_amount = none;
  percentage = some five_percent;
  include_in_comparison = true;
  already_included_in_quote = false;
  allocation_method = AllocationMethod.by_quantity;
}

evaluate_stages-Based_example :
    evaluate_stages (insurance_cost ∷ []) in_euros (euros 0 0) (euros 100 0)
    ≢ err invalid_percentage_base
unfolding evaluation_stage_of assert_valid_additional_cost assert_percentage_is_usable
    allowed_percentage_bases base_eq
evaluate_stages-Based_example =
    evaluate_stages-Based (insurance_cost ∷ []) in_euros (euros 0 0) (euros 100 0) (refl, tt)

abbrev slot_up_to : ℕ → ℕ → AllocationSlot Scaled
slot_up_to held cap = record {
  order = 0;
  remainder = euros 0 0;
  capacity = some (euros cap 2);
  allocated = euros held 2;
}

one_cent : Worth scaled-IsDecimalJs 2 "EUR" (euros 1 2) (pos 1)
unfolding scaled-IsDecimalJs scale_ℤ
one_cent = (refl, (omega arith, refl))

-- Two slots with room for one cent each, and three cents.
hand_out-Settled_example :
    Settled scaled-IsDecimalJs 2 "EUR"
      (euros 1 2)
      one_cent
      (rounds (euros 3 2) 2)
      true
      (slot_up_to 4 5 ∷ slot_up_to 0 1 ∷ [])
      (record { held = 4; cap = some 5 } ∷ record { held = 0; cap = some 1 } ∷ [])
      (euros 3 2)
      3
unfolding scaled-IsDecimalJs scale_ℤ
hand_out-Settled_example =
    hand_out-Settled scaled-IsDecimalJs 2 "EUR" (euros 1 2) one_cent true
      (slot_up_to 4 5 ∷ slot_up_to 0 1 ∷ [])
      (record { held = 4; cap = some 5 } ∷ record { held = 0; cap = some 1 } ∷ []) (euros 3 2) 3
      (
        ((refl, (omega arith, refl)), (refl, (omega arith, refl))),
        (((refl, (omega arith, refl)), (refl, (omega arith, refl))), tt),
      )
      (refl, (omega arith, refl)) (omega arith, (omega arith, tt))
