-- ===== src/Calculation/AdditionalCost/Laws.antt =====
-- What a valid cost definition tells.
use landed_compare.Prelude.{
  Bool, true, false, not, some, ◌≡◌, refl, any, Option-cases, inl, inr, arith,
}
use landed_compare.Prelude.Text.{is_blank}
use landed_compare.Errors.{
  Error, Result, ok, err, ◌>>◌, throw_if, ◌>>=◌, invalid_discount, invalid_cost_definition,
  invalid_percentage_base,
}
use landed_compare.Domain.DecimalJs.{DecimalJs}
use landed_compare.Calculation.AdditionalCost.{
  AdditionalCost, PercentageBasis, CostKind, CostCategory, evaluation_stage_of,
  allowed_percentage_bases, base_eq, assert_percentage_is_usable, assert_valid_additional_cost,
  assert_basis, over_discount, label_blank,
}

seq-ok : (b : Bool) (e : Error) (k : Result (Unit {0})) → (throw_if b e >> k) ≡ ok tt → k ≡ ok tt
seq-ok true e k h = absurd (cc)
seq-ok false e k h = h

throw_if-ok : (b : Bool) (e : Error) → throw_if (not b) e ≡ ok tt → b ≡ true
throw_if-ok true e h = refl
throw_if-ok false e h = absurd (cc)

guarded-ok :
    (m : Result Bool) (e f : Error) (b : Bool)
    → (m >>= λ over. throw_if over e >> throw_if (not b) f) ≡ ok tt
    → b ≡ true
guarded-ok (ok over) e f b h = throw_if-ok b f (seq-ok over e (throw_if (not b) f) h)
guarded-ok (err g) e f b h = absurd (cc)

module _ {D : Type 0} ⦃j : DecimalJs D⦄ where
  usable-allowed :
      (kind : CostKind) (category : CostCategory) (p : PercentageBasis D)
      → assert_percentage_is_usable kind category p ≡ ok tt
      → any (base_eq p.base) (allowed_percentage_bases (evaluation_stage_of kind category)) ≡ true
  unfolding assert_percentage_is_usable
  usable-allowed kind category p h =
      guarded-ok (over_discount kind p.rate) invalid_discount invalid_percentage_base _ h

  -- The base of a valid percentage cost is one that its stage allows.
  pub valid-allowed :
      (c : AdditionalCost D) (p : PercentageBasis D)
      → assert_valid_additional_cost c ≡ ok tt
      → c.percentage ≡ some p
      → any (base_eq p.base) (allowed_percentage_bases (evaluation_stage_of c.kind c.category))
        ≡ true
  unfolding assert_valid_additional_cost assert_basis
  valid-allowed c p h q =
      let basis : assert_basis c c.fixed_amount c.percentage ≡ ok tt =
        seq-ok (label_blank c.label) invalid_cost_definition _
          (seq-ok (is_blank c.id) invalid_cost_definition _ h) in
      let basis' : assert_basis c c.fixed_amount (some p) ≡ ok tt = rw q at basis in
      elim (Option-cases c.fixed_amount) [
        | inl e ↦ usable-allowed c.kind c.category p (rw e at basis')
        | inr (a, e) ↦ absurd (ground (arith, rw e at basis'))
      ]
