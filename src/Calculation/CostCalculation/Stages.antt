-- ===== src/Calculation/CostCalculation/Stages.antt =====
-- The stages of a calculation never ask for a percentage base that is not resolved yet.
use landed_compare.Prelude.{
  ℕ, suc, String, Bool, true, Option, none, some, List, [], ◌∷◌, ◌≡◌, ◌≢◌, refl, subst, any, All,
  Bool-cases, inl, inr, arith,
}
use landed_compare.Errors.{
  Result, ok, err, ◌>>=◌, throw_if, invalid_discount, invalid_percentage_base,
}
use landed_compare.Domain.DecimalJs.{DecimalJs}
use landed_compare.Domain.Money
use landed_compare.Domain.Money.{Money}
use landed_compare.Calculation.Percentage
use landed_compare.Calculation.ExchangeRate.{ExchangeRateTable, convert_to_base_currency}
use landed_compare.Calculation.AdditionalCost.{
  AdditionalCost, PercentageBase, PercentageBasis, Stage, freight_insurance, other_cost,
  evaluation_stage_of, allowed_percentage_bases, base_eq, assert_valid_additional_cost,
}
use landed_compare.Calculation.AdditionalCost.Laws.{valid-allowed}
use landed_compare.Calculation.CostCalculation.Supplier.{
  discount_bases, freight_bases, all_bases, evaluate_stages,
}
use landed_compare.Calculation.CostCalculation.Entries.{
  AvailableBases, EvaluatedEntry, evaluate_basis, evaluate_entry, evaluate_stage, group_by_stage,
  stage_eq, sum_magnitudes,
}
use landed_compare.Calculation.CostCalculation.Based.{
  Based, then-Based, throw_if-Based, traverse-Based, zero-Based, add-Based, subtract-Based,
  is_greater_than-Based, multiply-Based, convert-Based, sum_magnitudes-Based,
}

stage_eq-same : (a b : Stage) → stage_eq a b ≡ true → a ≡ b
unfolding stage_eq
stage_eq-same a b h = ground arith

module _ {D : Type 0} ⦃j : DecimalJs D⦄ where
  -- A base is resolved by the bases that a stage is given.
  abbrev Resolved : AvailableBases D → PercentageBase → Type 0
  Resolved bases base = (amount : Money D) × (bases base ≡ some amount)

  -- The bases of a stage resolve every base that the stage allows.
  abbrev Serves : AvailableBases D → Stage → Type 0
  Serves bases stage =
      (base : PercentageBase)
      → any (base_eq base) (allowed_percentage_bases stage) ≡ true
      → Resolved bases base

  discount_bases-Serves : (m : Money D) → Serves (discount_bases m) Stage.discount
  unfolding base_eq allowed_percentage_bases discount_bases
  discount_bases-Serves m PercentageBase.merchandise h = (_, refl)
  discount_bases-Serves m PercentageBase.merchandise_after_discount h = absurd (cc)
  discount_bases-Serves m PercentageBase.merchandise_plus_freight_insurance h = absurd (cc)

  freight_bases-Serves : (m after : Money D) → Serves (freight_bases m after) freight_insurance
  unfolding base_eq allowed_percentage_bases freight_bases
  freight_bases-Serves m after PercentageBase.merchandise h = (_, refl)
  freight_bases-Serves m after PercentageBase.merchandise_after_discount h = (_, refl)
  freight_bases-Serves m after PercentageBase.merchandise_plus_freight_insurance h = absurd (cc)

  all_bases-Serves :
      (m after plus : Money D) (stage : Stage) → Serves (all_bases m after plus) stage
  unfolding all_bases
  all_bases-Serves m after plus stage PercentageBase.merchandise h = (_, refl)
  all_bases-Serves m after plus stage PercentageBase.merchandise_after_discount h = (_, refl)
  all_bases-Serves m after plus stage PercentageBase.merchandise_plus_freight_insurance h =
      (_, refl)

  -- A valid cost of the stage.
  abbrev Staged : Stage → ℕ × AdditionalCost D → Type 0
  Staged stage z =
      (evaluation_stage_of z.1.kind z.1.category ≡ stage)
      × (assert_valid_additional_cost z.1 ≡ ok tt)

  group_by_stage-Staged :
      (stage : Stage) (index : ℕ) (costs : List (AdditionalCost D))
      → All (λ c. assert_valid_additional_cost c ≡ ok tt) costs
      → All (Staged stage) (group_by_stage stage index costs)
  unfolding group_by_stage
  group_by_stage-Staged stage index [] h = tt
  group_by_stage-Staged stage index (c ∷ cs) (h, hs) =
      let rest = group_by_stage-Staged stage (suc index) cs hs in
      elim (Bool-cases (stage_eq (evaluation_stage_of c.kind c.category) stage)) [
        | inl e ↦ rw e ((stage_eq-same _ stage e, h), rest)
        | inr e ↦ rw e rest
      ]

  module _ (table : ExchangeRateTable D) where
    evaluate_basis-Based :
        (c : AdditionalCost D) (stage : Stage) (bases : AvailableBases D) (zero : Money D)
        (fixed_amount : Option (Money D)) (percentage : Option (PercentageBasis D))
        → ((p : PercentageBasis D) → percentage ≡ some p → Resolved bases p.base)
        → Based (evaluate_basis c stage bases table zero fixed_amount percentage)
    unfolding evaluate_basis Percentage.apply_to
    evaluate_basis-Based c stage bases zero (some amount) percentage h =
        then-Based (convert_to_base_currency amount table) _ (convert-Based amount table) λ a. tt
    evaluate_basis-Based c stage bases zero none (some p) h =
        let (amount, e) = h p refl in
        rw e (then-Based (Percentage.apply_to p.rate amount) _ (multiply-Based amount _) λ a. tt)
    evaluate_basis-Based c stage bases zero none none h = λ q. cc

    evaluate_entry-Based :
        (base_currency : String) (stage : Stage) (bases : AvailableBases D)
        → Serves bases stage
        → (z : ℕ × AdditionalCost D) → Staged stage z
        → Based (evaluate_entry z.1 stage bases table base_currency)
    unfolding evaluate_entry
    evaluate_entry-Based base_currency stage bases serves z (here, valid) =
        then-Based (Money.zero base_currency) _ (zero-Based D base_currency) λ zero.
          evaluate_basis-Based z.1 stage bases zero z.1.fixed_amount z.1.percentage λ p e.
            serves p.base (
              subst (λ s. any (base_eq p.base) (allowed_percentage_bases s) ≡ true) here
                (valid-allowed z.1 p valid e))

    entries-Based :
        (base_currency : String) (stage : Stage) (bases : AvailableBases D)
        → Serves bases stage
        → (zs : List (ℕ × AdditionalCost D)) → All (Staged stage) zs
        → All
            (λ z.
              Based {A = ℕ × EvaluatedEntry D}
                (evaluate_entry z.1 stage bases table base_currency >>= λ entry. ok (z.0, entry)))
            zs
    entries-Based base_currency stage bases serves [] h = tt
    entries-Based base_currency stage bases serves (z ∷ zs) (h, hs) = (
      then-Based (evaluate_entry z.1 stage bases table base_currency) _
          (evaluate_entry-Based base_currency stage bases serves z h) λ entry. tt,
      entries-Based base_currency stage bases serves zs hs,
    )

    evaluate_stage-Based :
        (base_currency : String) (costs : List (AdditionalCost D)) (stage : Stage)
        (bases : AvailableBases D)
        → All (λ c. assert_valid_additional_cost c ≡ ok tt) costs
        → Serves bases stage
        → Based (evaluate_stage costs stage bases table base_currency)
    unfolding evaluate_stage
    evaluate_stage-Based base_currency costs stage bases valid serves =
        traverse-Based _ (group_by_stage stage 0 costs) (
          entries-Based base_currency stage bases serves (group_by_stage stage 0 costs)
            (group_by_stage-Staged stage 0 costs valid))

    summed-Based :
        (entries : List (EvaluatedEntry D)) (zero : Money D) (selects : EvaluatedEntry D → Bool)
        {B : Type 0} (next : Money D → Result B)
        → ((total : Money D) → Based (next total))
        → Based (sum_magnitudes entries zero selects >>= next)
    summed-Based entries zero selects next k =
        then-Based (sum_magnitudes entries zero selects) next
          (sum_magnitudes-Based entries zero selects) k

    stages-Based :
        (costs : List (AdditionalCost D)) (zero merchandise_total : Money D)
        → All (λ c. assert_valid_additional_cost c ≡ ok tt) costs
        → Based (evaluate_stages costs table zero merchandise_total)
    unfolding evaluate_stages
    stages-Based costs zero m valid =
        then-Based (evaluate_stage costs Stage.discount (discount_bases m) table table.base) _
          (evaluate_stage-Based table.base costs _ _ valid (discount_bases-Serves m))
          λ discounts. summed-Based _ zero _ _ λ total. summed-Based _ zero _ _ λ affecting.
            then-Based (Money.is_greater_than affecting m) _ (is_greater_than-Based affecting m)
              λ over.
                then-Based (throw_if over invalid_discount) _ (throw_if-Based over _ (λ q. cc)) λ u.
                  then-Based (Money.subtract m affecting) _ (subtract-Based m affecting) λ after.
                    then-Based
                      (evaluate_stage costs freight_insurance (freight_bases m after) table
                        table.base)
                      _
                      (evaluate_stage-Based table.base costs _ _ valid
                        (freight_bases-Serves m after))
                      λ freight. summed-Based _ zero _ _ λ sum.
                        then-Based (Money.add after sum) _ (add-Based after sum) λ plus.
                          let rest = evaluate_stage-Based table.base costs in
                          then-Based
                            (evaluate_stage costs other_cost (all_bases m after plus) table
                              table.base)
                            _ (rest _ _ valid (all_bases-Serves m after plus other_cost))
                            λ others.
                              then-Based
                                (evaluate_stage costs Stage.surcharge (all_bases m after plus) table
                                  table.base)
                                _ (rest _ _ valid (all_bases-Serves m after plus Stage.surcharge))
                                λ surcharges.
                                  summed-Based _ zero _ _
                                    λ surcharge_total. summed-Based _ zero _ _ λ cost_total. tt

  -- If every cost is valid, then the stages of the calculation do not fail because a percentage base is not
  -- resolved when the stage of a cost runs.
  pub evaluate_stages-Based :
      (costs : List (AdditionalCost D)) (table : ExchangeRateTable D)
      (zero merchandise_total : Money D)
      → All (λ c. assert_valid_additional_cost c ≡ ok tt) costs
      → evaluate_stages costs table zero merchandise_total ≢ err invalid_percentage_base
  evaluate_stages-Based costs table zero merchandise_total valid h =
      subst Based h (stages-Based table costs zero merchandise_total valid) refl
