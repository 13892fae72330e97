-- ===== src/Calculation/CostCalculation/Entries.antt =====
-- The evaluation of one cost, in `src/calculation/CostCalculation.ts`.
use landed_compare.Prelude.{
  ℕ, suc, String, Bool, true, false, not, Option, none, some, List, [], ◌∷◌, map, if◌then◌else◌,
  ◌||◌, compare,
}
use landed_compare.Prelude.Maps.{contains}
use landed_compare.Prelude.Sorting.{sort_by}
use landed_compare.Errors.{
  Result, ok, err, ◌>>=◌, ◌>>◌, throw_if, traverse, reduce, invalid_cost_definition,
  invalid_percentage_base,
}
use landed_compare.Domain.DecimalJs.{DecimalJs}
use landed_compare.Domain.Money
use landed_compare.Domain.Money.{Money}
use landed_compare.Calculation.Percentage
use landed_compare.Calculation.Percentage.{Percentage}
use landed_compare.Calculation.ExchangeRate.{ExchangeRateTable, convert_to_base_currency}
use landed_compare.Calculation.AdditionalCost.{
  AdditionalCost, CostKind, CostCategory, PercentageBase, PercentageBasis, Stage, AllocationMethod,
  evaluation_stage_of, is_discount,
}

pub data CostExclusionReason : Type 0 where
  already_included_in_quote excluded_from_comparison : CostExclusionReason

-- How an entry's amount came about: the amount as entered, or the rate, its base and that base's
-- amount.
pub data Basis (D : Type 0) : Type 0 where
  fixed : Money D → Basis D
  percent : String → PercentageBase → Money D → Basis D

-- An entry before settlement.
pub record EvaluatedEntry (D : Type 0) : Type 0 where
  pub id : String
  pub kind : CostKind
  pub category : CostCategory
  pub label : Option String
  pub stage : Stage
  pub basis : Basis D
  pub base_currency_amount : Money D
  pub signed_effect : Money D
  pub contributes : Bool
  pub exclusion_reason : Option CostExclusionReason
  pub affects_percentage_bases : Bool
  pub allocation_method : AllocationMethod

pub record AppliedCostEntry (D : Type 0) : Type 0 where
  pub entry : EvaluatedEntry D
  pub open entry use *
  pub settled_effect : Money D

-- `Partial<Record<PercentageBase, Money>>`
abbrev pub AvailableBases : Type 0 → Type 0
AvailableBases D = PercentageBase → Option (Money D)

-- Whether an entry reaches the landed total, and why not: `none` is a contribution.
unfoldable pub exclusion_of : Bool → Bool → Option CostExclusionReason
exclusion_of already_included included =
    if already_included
    then some already_included_in_quote
    else if not included
    then some excluded_from_comparison
    else none

abbrev pub is_none : Option CostExclusionReason → Bool
is_none none = true
is_none (some r) = false

module _ {D : Type 0} ⦃j : DecimalJs D⦄ where
  unfoldable pub classify_contribution : AdditionalCost D → Option CostExclusionReason
  unfolding exclusion_of
  classify_contribution c = exclusion_of c.already_included_in_quote c.include_in_comparison

  unfoldable pub signed_effect_of : CostKind → Money D → Bool → Money D → Money D
  signed_effect_of kind magnitude contributes zero =
      if not contributes || Money.is_zero magnitude
      then zero
      else if is_discount kind
      then Money.negate magnitude
      else magnitude

  unfoldable pub entry_of :
      AdditionalCost D → Stage → Basis D → Money D → Money D → EvaluatedEntry D
  unfolding classify_contribution
  entry_of c stage basis amount zero =
      let reason = classify_contribution c in
      record {
        id = c.id;
        kind = c.kind;
        category = c.category;
        label = c.label;
        stage = stage;
        basis = basis;
        base_currency_amount = amount;
        signed_effect = signed_effect_of c.kind amount (is_none reason) zero;
        contributes = is_none reason;
        exclusion_reason = reason;
        affects_percentage_bases = not c.already_included_in_quote;
        allocation_method = c.allocation_method;
      }

  resolved_base : Option (Money D) → Result (Money D)
  resolved_base none = err invalid_percentage_base
  resolved_base (some a) = ok a

  unfoldable pub evaluate_basis :
      AdditionalCost D
      → Stage
      → AvailableBases D
      → ExchangeRateTable D
      → Money D
      → Option (Money D)
      → Option (PercentageBasis D)
      → Result (EvaluatedEntry D)
  unfolding resolved_base
  evaluate_basis c stage bases table zero (some amount) p = do
    converted ← convert_to_base_currency amount table
    ok (entry_of c stage (fixed amount) converted zero)
  evaluate_basis c stage bases table zero none (some p) = do
    base_amount ← resolved_base (bases p.base)
    amount ← Percentage.apply_to p.rate base_amount
    ok (
        entry_of c stage (percent (Percentage.to_decimal_string p.rate) p.base base_amount) amount
          zero)
  evaluate_basis c stage bases table zero none none = err invalid_cost_definition

  unfoldable pub evaluate_entry :
      AdditionalCost D
      → Stage
      → AvailableBases D
      → ExchangeRateTable D
      → String
      → Result (EvaluatedEntry D)
  unfolding evaluate_basis
  evaluate_entry c stage bases table base_currency = do
    zero ← Money.zero base_currency
    evaluate_basis c stage bases table zero c.fixed_amount c.percentage

unfoldable pub stage_eq : Stage → Stage → Bool
stage_eq Stage.discount Stage.discount = true
stage_eq Stage.freight_insurance Stage.freight_insurance = true
stage_eq Stage.other_cost Stage.other_cost = true
stage_eq Stage.surcharge Stage.surcharge = true
stage_eq _ _ = false

module _ {D : Type 0} where
  -- The costs of a stage with their places in the input, from the place `index` on.
  unfoldable pub group_by_stage : Stage → ℕ → List (AdditionalCost D) → List (ℕ × AdditionalCost D)
  group_by_stage stage index [] = []
  group_by_stage stage index (c ∷ cs) =
      let rest = group_by_stage stage (suc index) cs in
      if stage_eq (evaluation_stage_of c.kind c.category) stage then (index, c) ∷ rest else rest

  -- `evaluated[index] = entry` for every cost of every stage, read from the first place to the last.
  unfoldable pub in_input_order : List (ℕ × EvaluatedEntry D) → List (EvaluatedEntry D)
  in_input_order written = map (λ w. w.1) (sort_by (λ a b. compare a.0 b.0) written)

module _ {D : Type 0} ⦃j : DecimalJs D⦄ where
  -- One call of `evaluateStage`.
  unfoldable pub evaluate_stage :
      List (AdditionalCost D)
      → Stage
      → AvailableBases D
      → ExchangeRateTable D
      → String
      → Result (List (ℕ × EvaluatedEntry D))
  evaluate_stage costs stage bases table base_currency =
      traverse
        (λ staged.
          evaluate_entry staged.1 stage bases table base_currency >>= λ entry. ok (staged.0, entry))
        (group_by_stage stage 0 costs)

  add_magnitude : (EvaluatedEntry D → Bool) → Money D → EvaluatedEntry D → Result (Money D)
  add_magnitude selects total entry =
      if selects entry then Money.add total entry.base_currency_amount else ok total

  unfoldable pub sum_magnitudes :
      List (EvaluatedEntry D) → Money D → (EvaluatedEntry D → Bool) → Result (Money D)
  unfolding add_magnitude
  sum_magnitudes entries zero selects = reduce (add_magnitude selects) zero entries

-- `seen` holds the ids that stand further in front.
unfoldable pub no_repeats : List String → List String → Result (Unit {0})
no_repeats seen [] = ok tt
no_repeats seen (id ∷ ids) =
    throw_if (contains id seen) invalid_cost_definition >> no_repeats (id ∷ seen) ids
