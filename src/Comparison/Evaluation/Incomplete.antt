-- ===== src/Comparison/Evaluation/Incomplete.antt =====
-- What an incomplete supplier misses.
use landed_compare.Prelude.{
  ◌≡◌, ◌↔◌, ◌≢◌, sym, ap, subst, String, some, List, [], ◌∷◌, In, inl, inr,
}
use landed_compare.Errors.{Result, ok, yielded, ok_same}
use landed_compare.Domain.DecimalJs.{DecimalJs}
use landed_compare.Domain.Project.{Quote, QuoteItem}
use landed_compare.Comparison.Evaluation.Laws.{
  Judged, unquoted, malformed, unpriced, priced, evaluate_supplier-Judged, captured_ok,
}
use landed_compare.Comparison.Evaluation.{
  SupplierEvaluation, incomplete, EvaluateSupplierInput, stopped, requirement_ids, priced_ids,
  run_calculation_pipeline, captured, evaluate_supplier,
}
use landed_compare.Comparison.Evaluation.Complete.{Checked, pipeline-Checked}

module _ {D : Type 0} ⦃j : DecimalJs D⦄ where
  -- The requirements that the first quote prices; none, if there is no quote.
  abbrev pub first_priced : List (Quote D) → List String
  first_priced [] = []
  first_priced (q ∷ qs) = priced_ids q.items

  captured-status :
      (input : EvaluateSupplierInput D) (q : Quote D) (items : List (String × QuoteItem D))
      (e : SupplierEvaluation D)
      → captured input.supplier.id q.id (run_calculation_pipeline input q items) ≡ ok e
      → e.status ≢ incomplete
  unfolding stopped
  captured-status input q items e h k =
      elim (captured_ok input.supplier.id q.id (run_calculation_pipeline input q items) h) [
        | inl p ↦ absurd (cc ((yielded (Checked input) (pipeline-Checked input q items) p).3, k))
        | inr p ↦ absurd (cc (ap (λ x. x.status) p, k))
      ]

  -- The missing requirements of an incomplete supplier.
  abbrev pub Missing : EvaluateSupplierInput D → SupplierEvaluation D → Type 0
  Missing input e =
      (ids : List String) × (e.missing_requirement_ids ≡ some ids)
      × ((id : String)
          → In id ids ↔ (
              In id (requirement_ids input.requirements)
              × ¬ In id (first_priced input.quotes_for_supplier)))

  Judged-Missing :
      (input : EvaluateSupplierInput D) (e : SupplierEvaluation D)
      {r : Result (SupplierEvaluation D)}
      → Judged input r
      → r ≡ ok e
      → e.status ≡ incomplete
      → Missing input e
  unfolding stopped
  Judged-Missing input e (unquoted p) h k = (
    _,
    sym (ap (λ x. x.missing_requirement_ids) (ok_same h)),
    λ id. (λ i. (i, subst (λ qs. ¬ In id (first_priced qs)) (sym p) (λ n. n tt)), λ i. i.0),
  )
  Judged-Missing input e (malformed q qs is p w) h k =
      absurd (cc (ap (λ x. x.status) (ok_same h), k))
  Judged-Missing input e (unpriced q qs code ids p w m n) h k = (
    ids,
    sym (ap (λ x. x.missing_requirement_ids) (ok_same h)),
    subst
        (λ qs'.
          (id : String)
          → In id ids ↔ (In id (requirement_ids input.requirements) × ¬ In id (first_priced qs')))
        (sym p) m,
  )
  Judged-Missing input e (priced q qs p w n all) h k = absurd (captured-status input q _ e h k)

  -- An incomplete supplier is reported with exactly the requirements that no item of its first quote
  -- prices.
  pub evaluate_supplier-Missing :
      (input : EvaluateSupplierInput D) (e : SupplierEvaluation D)
      → evaluate_supplier input ≡ ok e
      → e.status ≡ incomplete
      → Missing input e
  evaluate_supplier-Missing input e h k =
      Judged-Missing input e (evaluate_supplier-Judged input) h k

  -- Whatever it comes to, an evaluation is of its supplier.
  Judged-supplier :
      (input : EvaluateSupplierInput D) (e : SupplierEvaluation D)
      {r : Result (SupplierEvaluation D)}
      → Judged input r
      → r ≡ ok e
      → e.supplier_id ≡ input.supplier.id
  unfolding stopped
  Judged-supplier input e (unquoted p) h = sym (ap (λ x. x.supplier_id) (ok_same h))
  Judged-supplier input e (malformed q qs is p w) h = sym (ap (λ x. x.supplier_id) (ok_same h))
  Judged-supplier input e (unpriced q qs code ids p w m n) h =
      sym (ap (λ x. x.supplier_id) (ok_same h))
  Judged-supplier input e (priced q qs p w n all) h =
      elim (captured_ok input.supplier.id q.id (run_calculation_pipeline input q _) h) [
        | inl p ↦ (yielded (Checked input) (pipeline-Checked input q _) p).2
        | inr p ↦ ap (λ x. x.supplier_id) p
      ]

  pub evaluate_supplier-supplier :
      (input : EvaluateSupplierInput D) (e : SupplierEvaluation D)
      → evaluate_supplier input ≡ ok e
      → e.supplier_id ≡ input.supplier.id
  evaluate_supplier-supplier input e h = Judged-supplier input e (evaluate_supplier-Judged input) h
