-- ===== src/Calculation/CostCalculation/Settlement.antt =====
-- `reconcileSettledEffects` of `src/calculation/CostCalculation.ts`: the settled total is fixed first,
-- and the effects of the costs are made to add up to it.
pub mod Targets
use landed_compare.Prelude.{
  ℕ, suc, String, Bool, true, false, not, Option, none, some, List, [], ◌∷◌, ◌++◌, map,
  if◌then◌else◌, compare, Ordering, filter, ◌==◌, ◌≡◌,
}
use landed_compare.Prelude.Sorting.{sort_by}
use landed_compare.Prelude.Text.{compare_text}
use landed_compare.Errors.{
  Error, Result, ok, err, ◌>>=◌, ◌>>◌, throw_if, reduce, settlement_reconciliation,
}
use landed_compare.Domain.DecimalJs.{DecimalJs}
use landed_compare.Domain.Money
use landed_compare.Domain.Money.{Money}
use landed_compare.Calculation.Allocation.Split.{settle_total_across_parts}
use landed_compare.Calculation.CostCalculation.Entries.{EvaluatedEntry, AppliedCostEntry}

pub record EffectPool (D : Type 0) : Type 0 where
  pub indices : List ℕ
  pub magnitudes : List (Money D)
  pub total : Money D

pub record PoolTargets (D : Type 0) : Type 0 where
  pub positive_target : Money D
  pub negative_target : Money D

-- `entries.map((_, index) => index)`, kept with the entries.
unfoldable pub indexed : {A : Type 0} → ℕ → List A → List (ℕ × A)
indexed index [] = []
indexed index (x ∷ xs) = (index, x) ∷ indexed (suc index) xs

module _ {D : Type 0} ⦃j : DecimalJs D⦄ where
  unfoldable pub effect_pool :
      List (EvaluatedEntry D) → (Money D → Bool) → Money D → Result (EffectPool D)
  effect_pool evaluated selects zero = do
    let members =
        sort_by (λ a b. compare_text a.1.id b.1.id)
          (filter (λ m. selects m.1.signed_effect) (indexed 0 evaluated))
    let magnitudes = map (λ m. Money.abs m.1.signed_effect) members
    total ← reduce Money.add zero magnitudes
    ok (record { indices = map (λ m. m.0) members; magnitudes = magnitudes; total = total })

  unfoldable pub no_members : EffectPool D → Bool
  no_members pool = elim pool.indices [ [] ↦ true | _ ↦ false ]

  -- The costs take the residual.
  onto_positive : Money D → Money D → Money D → Result (PoolTargets D)
  onto_positive residual settled_positive settled_negative = do
    p ← Money.add settled_positive residual
    ok (record { positive_target = p; negative_target = settled_negative })

  -- The discounts take it.
  onto_negative : Money D → Money D → Money D → Result (PoolTargets D)
  onto_negative residual settled_positive settled_negative = do
    n ← Money.subtract settled_negative residual
    ok (record { positive_target = settled_positive; negative_target = n })

  unfoldable pub resolve_residual :
      Money D → Money D → Money D → EffectPool D → EffectPool D → Result (PoolTargets D)
  unfolding no_members onto_positive onto_negative
  resolve_residual residual settled_positive settled_negative positive negative =
      if Money.is_zero residual
      then ok (record { positive_target = settled_positive; negative_target = settled_negative })
      else if Money.is_positive residual
      then (if no_members positive
          then onto_negative residual settled_positive settled_negative
          else onto_positive residual settled_positive settled_negative)
      else if no_members negative
      then onto_positive residual settled_positive settled_negative
      else onto_negative residual settled_positive settled_negative

  unfoldable pub assert_pool_target : Money D → Result (Unit {0})
  assert_pool_target target = throw_if (Money.is_negative target) settlement_reconciliation

  unfoldable pub resolve_pool_targets :
      Money D → EffectPool D → EffectPool D → ℕ → Result (PoolTargets D)
  unfolding assert_pool_target
  resolve_pool_targets settled_effect_total positive negative minor_unit = do
    let settled_positive = Money.round_to_minor_unit positive.total minor_unit
    let settled_negative = Money.round_to_minor_unit negative.total minor_unit
    difference ← Money.subtract settled_positive settled_negative
    residual ← Money.subtract settled_effect_total difference
    targets ← resolve_residual residual settled_positive settled_negative positive negative
    assert_pool_target targets.positive_target
    assert_pool_target targets.negative_target
    ok targets

  -- `settled[indices[slot]] = share`
  unfoldable pub write_shares : List ℕ → List (Money D) → List (ℕ × Money D)
  write_shares (i ∷ is) (s ∷ ss) = (i, s) ∷ write_shares is ss
  write_shares _ _ = []

  share_at : ℕ → List (ℕ × Money D) → Money D → Money D
  share_at index [] zero = zero
  share_at index ((i, s) ∷ written) zero =
      let rest = share_at index written zero in if i == index then s else rest

  -- `share.isZero() ? share : share.negate()`
  negated_share : Money D → Money D
  negated_share share = if Money.is_zero share then share else Money.negate share

  read_shares : List (ℕ × EvaluatedEntry D) → List (ℕ × Money D) → Money D → List (Money D)
  read_shares entries written zero = map (λ m. share_at m.0 written zero) entries

  unfoldable pub reconcile_settled_effects :
      List (EvaluatedEntry D) → Money D → ℕ → Money D → Result (List (Money D))
  unfolding share_at negated_share read_shares
  reconcile_settled_effects evaluated settled_effect_total minor_unit zero = do
    positive ← effect_pool evaluated Money.is_positive zero
    negative ← effect_pool evaluated Money.is_negative zero
    targets ← resolve_pool_targets settled_effect_total positive negative minor_unit
    costs ← settle_total_across_parts targets.positive_target positive.magnitudes minor_unit
    discounts ← settle_total_across_parts targets.negative_target negative.magnitudes minor_unit
    let given = write_shares positive.indices costs
    let taken = write_shares negative.indices (map negated_share discounts)
    ok (read_shares (indexed 0 evaluated) (given ++ taken) zero)

  unfoldable pub assert_breakdown_reconciles :
      List (AppliedCostEntry D) → Money D → Money D → Result (Unit {0})
  assert_breakdown_reconciles entries settled_merchandise settled_landed = do
    sum ← reduce (λ total entry. Money.add total entry.settled_effect) settled_merchandise entries
    throw_if (not (Money.equals sum settled_landed)) settlement_reconciliation
