-- ===== src/Calculation/AdditionalCost.antt =====
-- `src/calculation/AdditionalCost.ts`: costs, discounts and surcharges, and their stages.
pub mod Laws
use landed_compare.Prelude.{
  ℕ, String, Bool, true, false, not, ◌&&◌, ◌||◌, Option, none, some, List, [], ◌∷◌, if◌then◌else◌,
  any,
}
use landed_compare.Prelude.Text.{is_blank}
use landed_compare.Errors.{
  Error, Result, ok, err, ◌>>=◌, ◌>>◌, throw_if, invalid_cost_definition, invalid_cost_amount,
  invalid_percentage_base, invalid_discount,
}
use landed_compare.Domain.DecimalJs.{DecimalJs}
use landed_compare.Domain.Money
use landed_compare.Domain.Money.{Money}
use landed_compare.Calculation.Percentage.{Percentage, exceeds_one_hundred}

pub data CostKind : Type 0 where
  cost discount surcharge : CostKind

pub data CostCategory : Type 0 where
  freight insurance duty brokerage bank_fee local_transport packaging tax other : CostCategory

pub data PercentageBase : Type 0 where
  merchandise merchandise_after_discount merchandise_plus_freight_insurance : PercentageBase

pub data Stage : Type 0 where
  discount freight_insurance other_cost surcharge : Stage

pub data AllocationMethod : Type 0 where
  by_merchandise_value equal_per_line by_quantity : AllocationMethod

pub record PercentageBasis (D : Type 0) : Type 0 where
  pub rate : Percentage D
  pub base : PercentageBase

pub record AdditionalCost (D : Type 0) : Type 0 where
  pub id : String
  pub kind : CostKind
  pub category : CostCategory
  pub label : Option String
  pub fixed_amount : Option (Money D)
  pub percentage : Option (PercentageBasis D)
  pub include_in_comparison : Bool
  pub already_included_in_quote : Bool
  pub allocation_method : AllocationMethod

unfoldable pub is_freight_or_insurance : CostCategory → Bool
is_freight_or_insurance freight = true
is_freight_or_insurance insurance = true
is_freight_or_insurance _ = false

unfoldable pub evaluation_stage_of : CostKind → CostCategory → Stage
unfolding is_freight_or_insurance
evaluation_stage_of CostKind.discount category = Stage.discount
evaluation_stage_of CostKind.surcharge category = Stage.surcharge
evaluation_stage_of CostKind.cost category =
    if is_freight_or_insurance category then freight_insurance else other_cost

unfoldable pub base_eq : PercentageBase → PercentageBase → Bool
base_eq merchandise merchandise = true
base_eq merchandise_after_discount merchandise_after_discount = true
base_eq merchandise_plus_freight_insurance merchandise_plus_freight_insurance = true
base_eq _ _ = false

unfoldable pub allowed_percentage_bases : Stage → List PercentageBase
allowed_percentage_bases Stage.discount = merchandise ∷ []
allowed_percentage_bases freight_insurance = merchandise ∷ merchandise_after_discount ∷ []
allowed_percentage_bases other_cost =
    merchandise ∷ merchandise_after_discount ∷ merchandise_plus_freight_insurance ∷ []
allowed_percentage_bases Stage.surcharge =
    merchandise ∷ merchandise_after_discount ∷ merchandise_plus_freight_insurance ∷ []

label_blank : Option String → Bool
label_blank none = false
label_blank (some text) = is_blank text

abbrev pub is_discount : CostKind → Bool
is_discount CostKind.discount = true
is_discount _ = false

module _ {D : Type 0} ⦃j : DecimalJs D⦄ where
  -- `kind === 'DISCOUNT' && rate.exceedsOneHundred()`
  over_discount : CostKind → Percentage D → Result Bool
  over_discount kind rate = if is_discount kind then exceeds_one_hundred rate else ok false

  unfoldable pub assert_percentage_is_usable :
      CostKind → CostCategory → PercentageBasis D → Result (Unit {0})
  unfolding over_discount
  assert_percentage_is_usable kind category p = do
    over ← over_discount kind p.rate
    throw_if over invalid_discount
    throw_if
        (not (any (base_eq p.base) (allowed_percentage_bases (evaluation_stage_of kind category))))
        invalid_percentage_base

  -- The two calculation types: exactly one must be given.
  assert_basis :
      AdditionalCost D → Option (Money D) → Option (PercentageBasis D) → Result (Unit {0})
  assert_basis c none none = err invalid_cost_definition
  assert_basis c (some a) (some p) = err invalid_cost_definition
  assert_basis c (some a) none = throw_if (Money.is_negative a) invalid_cost_amount
  assert_basis c none (some p) = assert_percentage_is_usable c.kind c.category p

  unfoldable pub assert_valid_additional_cost : AdditionalCost D → Result (Unit {0})
  unfolding label_blank assert_basis
  assert_valid_additional_cost c = do
    throw_if (is_blank c.id) invalid_cost_definition
    throw_if (label_blank c.label) invalid_cost_definition
    assert_basis c c.fixed_amount c.percentage
