-- ===== src/Calculation/CostCalculation/Supplier/Landed.antt =====
-- The landed total of a supplier: exact in every digit, rounded once, and broken down without a rest.
use landed_compare.Prelude.{
  ℕ, ◌≡◌, ◌^◌, ◌-◌, ◌≤◌, sym, ap, ◌∙◌, subst, refl, String, List, [], ◌∷◌, map, arith, Bool-cases,
  inl, inr, length, suc, length-map,
}
use landed_compare.Prelude.Int.{ℤ, ◌+ℤ◌, on_magnitude}
use landed_compare.Errors.{
  ok, throw_if, for_each, invalid_percentage_base, reduce, Yields, yielded, then-Yields, ok_same,
  Result-cases,
}
use landed_compare.Domain.DecimalJs.{DecimalJs, IsDecimalJs, half_up, round_units}
use landed_compare.Domain.Money
use landed_compare.Domain.Money.{Money}
use landed_compare.Domain.Money.Laws.{Worth, round-Worth}
use landed_compare.Domain.Money.Sums.{sum_ℤ, Worths, reduce-add-Worth, equals-Worth}
use landed_compare.Calculation.AdditionalCost.{assert_valid_additional_cost}
use landed_compare.Calculation.ExchangeRate.{convert_to_base_currency}
use landed_compare.Calculation.CurrencyMinorUnit.{assert_settleable_at_minor_unit}
use landed_compare.Calculation.Allocation.Split.{settle_total_across_parts}
use landed_compare.Calculation.CostCalculation.Entries.{
  no_repeats, EvaluatedEntry, AppliedCostEntry,
}
use landed_compare.Calculation.CostCalculation.Settlement.{
  indexed, effect_pool, resolve_pool_targets, reconcile_settled_effects,
  assert_breakdown_reconciles,
}
use landed_compare.Calculation.CostCalculation.Supplier.{
  CostInput, CostResult, evaluate_stages, Evaluation, with_effects, settle_evaluation,
  calculate_supplier_costs,
}

module _ {D : Type 0} ⦃j : DecimalJs D⦄ where
  reduce-map :
      {A : Type 0} (f : A → Money D) (start : Money D) (xs : List A)
      → reduce (λ total x. Money.add total (f x)) start xs ≡ reduce Money.add start (map f xs)
  reduce-map f start [] = refl
  reduce-map f start (x ∷ xs) = elim (Result-cases (Money.add start (f x))) [
    | inl (e, q) ↦ rw q refl
    | inr (m, q) ↦ rw q (reduce-map f m xs)
  ]

  abbrev pub signed_effects : List (AppliedCostEntry D) → List (Money D)
  signed_effects = map (λ a. a.signed_effect)

  abbrev pub settled_effects : List (AppliedCostEntry D) → List (Money D)
  settled_effects = map (λ a. a.settled_effect)

  -- What the total of a supplier is made of.
  abbrev pub Balanced : IsDecimalJs D → ℕ → String → CostResult D → Type 0
  Balanced laws s c r =
      (x : ℤ) (zs : List ℤ)
      → r.minor_unit ≤ s
      → Worth laws s c r.merchandise_total x
      → Worths laws s c (signed_effects r.entries) zs
      → let round = on_magnitude (round_units half_up (10 ^ (s - r.minor_unit))) in
        Worth laws s c r.calculated_landed_total (x +ℤ sum_ℤ zs)
        × Worth laws r.minor_unit c r.settled_merchandise_total (round x)
        × Worth laws r.minor_unit c r.settled_landed_total (round (x +ℤ sum_ℤ zs))
        × ((us : List ℤ)
            → Worths laws r.minor_unit c (settled_effects r.entries) us
            → round x +ℤ sum_ℤ us ≡ round (x +ℤ sum_ℤ zs))

  length-indexed : (i : ℕ) (es : List (EvaluatedEntry D)) → length (indexed i es) ≡ length es
  unfolding indexed
  length-indexed i [] = refl
  length-indexed i (e ∷ es) = ap suc (length-indexed (suc i) es)

  reconcile-length :
      (es : List (EvaluatedEntry D)) (total : Money D) (minor_unit : ℕ) (zero : Money D)
      → Yields
          (λ settled. length settled ≡ length es)
          (reconcile_settled_effects es total minor_unit zero)
  unfolding reconcile_settled_effects
  reconcile-length es total minor_unit zero =
      let P = λ (settled : List (Money D)). length settled ≡ length es in
      then-Yields P (effect_pool es Money.is_positive zero) _ λ positive _.
        then-Yields P (effect_pool es Money.is_negative zero) _ λ negative _.
          then-Yields P (resolve_pool_targets total positive negative minor_unit) _ λ targets _.
            then-Yields P
              (settle_total_across_parts targets.positive_target positive.magnitudes minor_unit) _
              λ costs _.
                then-Yields P
                  (settle_total_across_parts targets.negative_target negative.magnitudes minor_unit)
                  _ λ discounts _. length-map _ (indexed 0 es) ∙ length-indexed 0 es

  with_effects-entries :
      (es : List (EvaluatedEntry D)) (ss : List (Money D))
      → length ss ≡ length es
      → map (λ (a : AppliedCostEntry D). a.entry) (with_effects es ss) ≡ es
  unfolding with_effects
  with_effects-entries [] [] h = refl
  with_effects-entries [] (s ∷ ss) h = refl
  with_effects-entries (e ∷ es) [] h = absurd (omega arith)
  with_effects-entries (e ∷ es) (s ∷ ss) h =
      ap (λ r. e ∷ r) (with_effects-entries es ss (omega arith))

  map-map :
      (f : AppliedCostEntry D → EvaluatedEntry D) (g : EvaluatedEntry D → Money D)
      (as' : List (AppliedCostEntry D))
      → map (λ a. g (f a)) as' ≡ map g (map f as')
  map-map f g [] = refl
  map-map f g (a ∷ as') = ap (λ r. g (f a) ∷ r) (map-map f g as')

  -- A breakdown that passes its check adds up to the settled landed total.
  breakdown :
      (laws : IsDecimalJs D) (s : ℕ) (c : String) (entries : List (AppliedCostEntry D))
      (merchandise landed : Money D) (x y : ℤ) (us : List ℤ)
      → Worth laws s c merchandise x
      → Worth laws s c landed y
      → Worths laws s c (settled_effects entries) us
      → assert_breakdown_reconciles entries merchandise landed ≡ ok tt
      → x +ℤ sum_ℤ us ≡ y
  unfolding assert_breakdown_reconciles
  breakdown laws s c entries merchandise landed x y us wx wy ws h =
      let (total, sums, worth) =
        reduce-add-Worth laws s c (settled_effects entries) us merchandise x wx ws in
      let sums' =
        reduce-map (λ (a : AppliedCostEntry D). a.settled_effect) merchandise entries ∙ sums in
      equals-Worth laws s c total landed (x +ℤ sum_ℤ us) y worth wy
        (elim (Bool-cases (Money.equals total landed)) [
          | inl e ↦ e
          | inr e ↦ absurd (ground (arith, sums', e, h))
        ])

  settle_evaluation-Balanced :
      (laws : IsDecimalJs D) (s : ℕ) (c : String) (e : Evaluation D) (zero merchandise : Money D)
      (minor_unit : ℕ) (base : String)
      → Yields (Balanced laws s c) (settle_evaluation e zero merchandise minor_unit base)
  unfolding settle_evaluation
  settle_evaluation-Balanced laws s c e zero merchandise minor_unit base =
      let P = Balanced laws s c in
      let effect = λ (entry : EvaluatedEntry D). entry.signed_effect in
      let settled_merchandise = Money.round_to_minor_unit merchandise minor_unit in
      then-Yields P (reduce (λ total entry. Money.add total (effect entry)) merchandise e.evaluated)
        _
        λ landed added.
          then-Yields P
            (reduce (λ total entry. Money.add total (Money.abs (effect entry))) merchandise
              e.evaluated)
            _
            λ ceiling _. then-Yields P (assert_settleable_at_minor_unit ceiling minor_unit) _ λ _ _.
              let settled_landed = Money.round_to_minor_unit landed minor_unit in
              then-Yields P (Money.subtract settled_landed settled_merchandise) _ λ total _.
                then-Yields P (reconcile_settled_effects e.evaluated total minor_unit zero) _
                  λ settled reconciled.
                    then-Yields P
                      (assert_breakdown_reconciles (with_effects e.evaluated settled)
                        settled_merchandise settled_landed)
                      _
                      λ _ balanced x zs le wx ws.
                        let evaluated = with_effects-entries e.evaluated settled (
                          yielded (λ ss. length ss ≡ length e.evaluated)
                            (reconcile-length e.evaluated total minor_unit zero) reconciled) in
                        let ws' : Worths laws s c (map effect e.evaluated) zs =
                          subst (λ ms. Worths laws s c ms zs)
                            (map-map _ effect (with_effects e.evaluated settled)
                              ∙ ap (map effect) evaluated)
                            ws in
                        let (total', sums, worth) =
                          reduce-add-Worth laws s c (map effect e.evaluated) zs merchandise x wx
                            ws' in
                        let exact : Worth laws s c landed (x +ℤ sum_ℤ zs) =
                          subst (λ m. Worth laws s c m (x +ℤ sum_ℤ zs))
                            (ok_same (
                              sym sums ∙ (sym (reduce-map effect merchandise e.evaluated) ∙ added)))
                            worth in
                        let rounded = round-Worth laws minor_unit s c merchandise x le wx in
                        let rounded_landed =
                          round-Worth laws minor_unit s c landed (x +ℤ sum_ℤ zs) le exact in
                        (
                          exact,
                          rounded,
                          rounded_landed,
                          λ us wu.
                              breakdown laws minor_unit c (with_effects e.evaluated settled)
                                settled_merchandise settled_landed _ _ us rounded rounded_landed wu
                                balanced,
                        )

  costs-Balanced :
      (laws : IsDecimalJs D) (s : ℕ) (c : String) (input : CostInput D) (r : CostResult D)
      → calculate_supplier_costs input ≡ ok r
      → Balanced laws s c r
  unfolding calculate_supplier_costs
  costs-Balanced laws s c input r h =
      let P = Balanced laws s c in
      let table = input.exchange_rate_table in
      let returned : Yields P (calculate_supplier_costs input) =
        then-Yields P (Money.zero table.base) _ λ zero _.
          then-Yields P (for_each assert_valid_additional_cost input.costs) _ λ _ _.
            then-Yields P (no_repeats [] (map (λ c. c.id) input.costs)) _ λ _ _.
              then-Yields P (convert_to_base_currency input.merchandise_total table) _
                λ merchandise _.
                  then-Yields P (throw_if (Money.is_negative merchandise) invalid_percentage_base) _
                    λ _ _.
                      then-Yields P (evaluate_stages input.costs table zero merchandise) _ λ e _.
                        settle_evaluation-Balanced laws s c e zero merchandise input.minor_unit
                          table.base in
      yielded P returned h

  -- The exact landed total of a supplier is the merchandise total with every signed effect added, digit
  -- by digit; the two settled totals are these exact totals, each rounded once to the minor unit; and
  -- the settled merchandise total with every settled effect adds up to the settled landed total.
  pub calculate_supplier_costs-sums :
      (laws : IsDecimalJs D) (s : ℕ) (c : String) (input : CostInput D) (r : CostResult D) (x : ℤ)
      (zs us : List ℤ)
      → calculate_supplier_costs input ≡ ok r
      → r.minor_unit ≤ s
      → Worth laws s c r.merchandise_total x
      → Worths laws s c (signed_effects r.entries) zs
      → Worths laws r.minor_unit c (settled_effects r.entries) us
      → let round = on_magnitude (round_units half_up (10 ^ (s - r.minor_unit))) in
        Worth laws s c r.calculated_landed_total (x +ℤ sum_ℤ zs)
        × Worth laws r.minor_unit c r.settled_merchandise_total (round x)
        × Worth laws r.minor_unit c r.settled_landed_total (round (x +ℤ sum_ℤ zs))
        × (round x +ℤ sum_ℤ us ≡ round (x +ℤ sum_ℤ zs))
  calculate_supplier_costs-sums laws s c input r x zs us h le w ws wu =
      let (exact, merchandise, landed, settled) = costs-Balanced laws s c input r h x zs le w ws in
      (exact, merchandise, landed, settled us wu)
