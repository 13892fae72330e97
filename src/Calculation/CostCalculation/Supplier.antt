-- ===== src/Calculation/CostCalculation/Supplier.antt =====
-- `calculateSupplierCosts` of `src/calculation/CostCalculation.ts`.
pub mod Landed
use landed_compare.Prelude.{
  ℕ, String, Bool, true, false, Option, none, some, List, [], ◌∷◌, ◌++◌, map, filter,
}
use landed_compare.Errors.{
  Result, ok, ◌>>=◌, ◌>>◌, throw_if, for_each, reduce, invalid_discount, invalid_percentage_base,
}
use landed_compare.Domain.DecimalJs.{DecimalJs}
use landed_compare.Domain.Money
use landed_compare.Domain.Money.{Money}
use landed_compare.Calculation.CurrencyMinorUnit.{assert_settleable_at_minor_unit}
use landed_compare.Calculation.ExchangeRate.{ExchangeRateTable, convert_to_base_currency}
use landed_compare.Calculation.AdditionalCost.{
  AdditionalCost, PercentageBase, Stage, assert_valid_additional_cost, freight_insurance,
  other_cost,
}
use landed_compare.Calculation.CostCalculation.Entries.{
  EvaluatedEntry, AppliedCostEntry, AvailableBases, CostExclusionReason, already_included_in_quote,
  excluded_from_comparison, evaluate_stage, sum_magnitudes, in_input_order, no_repeats,
}
use landed_compare.Calculation.CostCalculation.Settlement.{
  reconcile_settled_effects, assert_breakdown_reconciles,
}

pub record PercentageBaseAmounts (D : Type 0) : Type 0 where
  pub merchandise : Money D
  pub merchandise_after_discount : Money D
  pub merchandise_plus_freight_insurance : Money D

pub record CostInput (D : Type 0) : Type 0 where
  pub merchandise_total : Money D
  pub costs : List (AdditionalCost D)
  pub exchange_rate_table : ExchangeRateTable D
  pub minor_unit : ℕ

pub record CostResult (D : Type 0) : Type 0 where
  pub base_currency : String
  pub minor_unit : ℕ
  pub merchandise_total : Money D
  pub settled_merchandise_total : Money D
  pub percentage_bases : PercentageBaseAmounts D
  pub entries : List (AppliedCostEntry D)
  pub applied_entries : List (AppliedCostEntry D)
  pub already_included_entries : List (AppliedCostEntry D)
  pub excluded_entries : List (AppliedCostEntry D)
  pub total_discounts : Money D
  pub total_surcharges : Money D
  pub total_additional_costs : Money D
  pub base_affecting_discounts : Money D
  pub calculated_landed_total : Money D
  pub settled_landed_total : Money D

-- The bases that are resolved when each stage runs.
unfoldable pub discount_bases : {D : Type 0} → Money D → AvailableBases D
discount_bases m PercentageBase.merchandise = some m
discount_bases m _ = none

unfoldable pub freight_bases : {D : Type 0} → Money D → Money D → AvailableBases D
freight_bases m after PercentageBase.merchandise = some m
freight_bases m after PercentageBase.merchandise_after_discount = some after
freight_bases m after _ = none

unfoldable pub all_bases : {D : Type 0} → Money D → Money D → Money D → AvailableBases D
all_bases m after plus PercentageBase.merchandise = some m
all_bases m after plus PercentageBase.merchandise_after_discount = some after
all_bases m after plus PercentageBase.merchandise_plus_freight_insurance = some plus

-- What the stages leave behind: every entry, the bases, and the sums of the discounts.
pub record Evaluation (D : Type 0) : Type 0 where
  pub bases : PercentageBaseAmounts D
  pub evaluated : List (EvaluatedEntry D)
  pub total_discounts : Money D
  pub base_affecting_discounts : Money D
  pub total_surcharges : Money D
  pub total_additional_costs : Money D

abbrev entries_of : {D : Type 0} → List (ℕ × EvaluatedEntry D) → List (EvaluatedEntry D)
entries_of = map (λ w. w.1)

with_effects : {D : Type 0} → List (EvaluatedEntry D) → List (Money D) → List (AppliedCostEntry D)
with_effects (e ∷ es) (s ∷ ss) = record { entry = e; settled_effect = s } ∷ with_effects es ss
with_effects _ _ = []

abbrev pub excluded_for_already : Option CostExclusionReason → Bool
excluded_for_already (some already_included_in_quote) = true
excluded_for_already _ = false

abbrev pub excluded_for_comparison : Option CostExclusionReason → Bool
excluded_for_comparison (some excluded_from_comparison) = true
excluded_for_comparison _ = false

module _ {D : Type 0} ⦃j : DecimalJs D⦄ where
  -- Stages 2 to 5, from the merchandise total in the base currency.
  unfoldable pub evaluate_stages :
      List (AdditionalCost D) → ExchangeRateTable D → Money D → Money D → Result (Evaluation D)
  evaluate_stages costs table zero merchandise_total = do
    discounts ←
        evaluate_stage costs Stage.discount (discount_bases merchandise_total) table table.base
    total_discounts ← sum_magnitudes (entries_of discounts) zero (λ e. e.contributes)
    base_affecting ← sum_magnitudes (entries_of discounts) zero (λ e. e.affects_percentage_bases)
    over ← Money.is_greater_than base_affecting merchandise_total
    throw_if over invalid_discount
    after_discount ← Money.subtract merchandise_total base_affecting
    freight ←
        evaluate_stage costs freight_insurance (freight_bases merchandise_total after_discount)
          table table.base
    freight_sum ← sum_magnitudes (entries_of freight) zero (λ e. e.affects_percentage_bases)
    plus_freight ← Money.add after_discount freight_sum
    let bases = all_bases merchandise_total after_discount plus_freight
    others ← evaluate_stage costs other_cost bases table table.base
    surcharges ← evaluate_stage costs Stage.surcharge bases table table.base
    total_surcharges ← sum_magnitudes (entries_of surcharges) zero (λ e. e.contributes)
    total_costs ← sum_magnitudes (entries_of freight ++ entries_of others) zero (λ e. e.contributes)
    ok (record {
      bases = record {
        merchandise = merchandise_total;
        merchandise_after_discount = after_discount;
        merchandise_plus_freight_insurance = plus_freight;
      };
      evaluated = in_input_order (discounts ++ (freight ++ (others ++ surcharges)));
      total_discounts = total_discounts;
      base_affecting_discounts = base_affecting;
      total_surcharges = total_surcharges;
      total_additional_costs = total_costs;
    })

  -- The settlement: the exact total is rounded once, and the effects are made to add up to it.
  unfoldable pub settle_evaluation :
      Evaluation D → Money D → Money D → ℕ → String → Result (CostResult D)
  unfolding with_effects
  settle_evaluation e zero merchandise_total minor_unit base_currency = do
    landed ←
        reduce (λ total entry. Money.add total entry.signed_effect) merchandise_total e.evaluated
    ceiling ←
        reduce (λ total entry. Money.add total (Money.abs entry.signed_effect)) merchandise_total
          e.evaluated
    assert_settleable_at_minor_unit ceiling minor_unit
    let settled_merchandise = Money.round_to_minor_unit merchandise_total minor_unit
    let settled_landed = Money.round_to_minor_unit landed minor_unit
    effect_total ← Money.subtract settled_landed settled_merchandise
    settled ← reconcile_settled_effects e.evaluated effect_total minor_unit zero
    let entries = with_effects e.evaluated settled
    assert_breakdown_reconciles entries settled_merchandise settled_landed
    ok (record {
      base_currency = base_currency;
      minor_unit = minor_unit;
      merchandise_total = merchandise_total;
      settled_merchandise_total = settled_merchandise;
      percentage_bases = e.bases;
      entries = entries;
      applied_entries = filter (λ a. a.contributes) entries;
      already_included_entries = filter (λ a. excluded_for_already a.exclusion_reason) entries;
      excluded_entries = filter (λ a. excluded_for_comparison a.exclusion_reason) entries;
      total_discounts = e.total_discounts;
      total_surcharges = e.total_surcharges;
      total_additional_costs = e.total_additional_costs;
      base_affecting_discounts = e.base_affecting_discounts;
      calculated_landed_total = landed;
      settled_landed_total = settled_landed;
    })

  unfoldable pub calculate_supplier_costs : CostInput D → Result (CostResult D)
  calculate_supplier_costs input = do
    let table = input.exchange_rate_table
    zero ← Money.zero table.base
    for_each assert_valid_additional_cost input.costs
    no_repeats [] (map (λ c. c.id) input.costs)
    merchandise_total ← convert_to_base_currency input.merchandise_total table
    throw_if (Money.is_negative merchandise_total) invalid_percentage_base
    evaluation ← evaluate_stages input.costs table zero merchandise_total
    settle_evaluation evaluation zero merchandise_total input.minor_unit table.base
