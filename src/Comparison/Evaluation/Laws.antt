-- ===== src/Comparison/Evaluation/Laws.antt =====
-- What an evaluation says of a supplier: which requirements are missing, and which errors it keeps.
use landed_compare.Prelude.{
  ◌≡◌, ◌↔◌, ◌≢◌, ◌⊎◌, refl, sym, subst, String, false, none, some, List, [], ◌∷◌, All, In,
  Bool-cases, inl, inr, arith,
}
use landed_compare.Prelude.Maps.{contains}
use landed_compare.Errors.{Result, ok, err, ok_same}
use landed_compare.Domain.DecimalJs.{DecimalJs}
use landed_compare.Domain.Project.{RequirementItem, Quote, QuoteItem}
use landed_compare.Comparison.Structure.Ids.{Distinct, All-of}
use landed_compare.Comparison.Structure.Laws.{contains_iff}
use landed_compare.Comparison.Evaluation.{
  SupplierEvaluation, incomplete, invalid, EvaluateSupplierInput, stopped,
  is_expected_calculation_error, has_repeat, requirement_ids, priced_ids, items_by_requirement_id,
  missing_requirement_ids_of, find_quote_structural_issues, captured, evaluate_priced,
  evaluate_items, evaluate_quote, evaluate_first, evaluate_supplier, SupplierIssueCode,
  missing_quote, calculation_error, run_calculation_pipeline,
}
use landed_compare.Comparison.Evaluation.Items.{has_repeat_iff, has_unknown_iff, missing_iff}

not-In : (id : String) (ids : List String) → contains id ids ≡ false → ¬ In id ids
not-In id ids e i = absurd (cc (e, (contains_iff id ids).1 i))

module _ {D : Type 0} ⦃j : DecimalJs D⦄ where
  -- A captured evaluation is the pipeline's, or that of a failed calculation.
  pub captured_ok :
      (id quote_id : String) (r : Result (SupplierEvaluation D)) {e : SupplierEvaluation D}
      → captured id quote_id r ≡ ok e
      → (r ≡ ok e) ⊎ (e ≡ stopped id invalid (calculation_error ∷ []) (some quote_id) none)
  unfolding captured
  captured_ok id quote_id (ok v) h = inl h
  captured_ok id quote_id (err f) h = elim (Bool-cases (is_expected_calculation_error f)) [
    | inl q ↦ inr (sym (ok_same (ground (arith, q, h))))
    | inr q ↦ absurd (ground (arith, q, h))
  ]

  -- Each item is for a requirement of the project, and no two are for the same one.
  abbrev pub WellFormed : Quote D → List (RequirementItem D) → Type 0
  WellFormed q requirements =
      Distinct (priced_ids q.items)
      × All (λ id. In id (requirement_ids requirements)) (priced_ids q.items)

  issues_iff :
      (q : Quote D) (requirements : List (RequirementItem D))
      → (find_quote_structural_issues q requirements ≡ []) ↔ WellFormed q requirements
  unfolding find_quote_structural_issues
  issues_iff q requirements =
      let repeated = has_repeat_iff [] (priced_ids q.items) in
      let unknown = has_unknown_iff (requirement_ids requirements) (priced_ids q.items) in
      elim (Bool-cases (has_repeat [] (priced_ids q.items))) [
        | inl e ↦ (
          λ h. absurd (ground (arith, e, h)),
          λ (d, k). absurd (ground (arith, e, repeated.1 (All-of _ (λ id. refl), d))),
        )
        | inr e ↦ (
          λ h. ((repeated.0 e).1, unknown.0 (ground (arith, e, h))),
          λ (d, k). ground (arith, e, unknown.1 k),
        )
      ]

  -- What the evaluation of a supplier comes to, by what its first quote has.
  pub data Judged (input : EvaluateSupplierInput D) : Result (SupplierEvaluation D) → Type 0 where
    unquoted :
        input.quotes_for_supplier ≡ []
        → Judged input (
            ok (
              stopped input.supplier.id incomplete
                (missing_quote ∷ [])
                none
                (some (requirement_ids input.requirements))))
    malformed :
        (q : Quote D) (qs : List (Quote D)) (issues : List SupplierIssueCode)
        → input.quotes_for_supplier ≡ q ∷ qs
        → ¬ WellFormed q input.requirements
        → Judged input (ok (stopped input.supplier.id invalid issues (some q.id) none))
    unpriced :
        (q : Quote D) (qs : List (Quote D)) (code : SupplierIssueCode) (ids : List String)
        → input.quotes_for_supplier ≡ q ∷ qs
        → WellFormed q input.requirements
        → ((id : String)
            → In id ids
              ↔ (In id (requirement_ids input.requirements) × ¬ In id (priced_ids q.items)))
        → (q.items ≡ []) ⊎ (ids ≢ [])
        → Judged input
            (ok (stopped input.supplier.id incomplete (code ∷ []) (some q.id) (some ids)))
    priced :
        (q : Quote D) (qs : List (Quote D))
        → input.quotes_for_supplier ≡ q ∷ qs
        → WellFormed q input.requirements
        → q.items ≢ []
        → ((id : String) → In id (requirement_ids input.requirements) → In id (priced_ids q.items))
        → Judged input (
            captured input.supplier.id q.id
              (run_calculation_pipeline input q (items_by_requirement_id q.items)))

  module _ (input : EvaluateSupplierInput D) (q : Quote D) (qs : List (Quote D))
      (first : input.quotes_for_supplier ≡ q ∷ qs) where
    priced-Judged :
        (ids : List String)
        → missing_requirement_ids_of input.requirements (items_by_requirement_id q.items) ≡ ids
        → WellFormed q input.requirements
        → q.items ≢ []
        → Judged input (evaluate_priced input q (items_by_requirement_id q.items) ids)
    unfolding evaluate_priced
    priced-Judged [] e w n = priced q qs first w n (λ id k.
        let absent = missing_iff q.items input.requirements id in
        elim (Bool-cases (contains id (priced_ids q.items))) [
          | inl p ↦ (contains_iff id (priced_ids q.items)).0 p
          | inr p ↦ absurd (subst (In id) e (absent.1 (k, not-In id (priced_ids q.items) p)) tt)
        ])
    priced-Judged (id ∷ ids) e w n =
        unpriced q qs _ _ first w
          (subst
            (λ ms.
              (x : String)
              → In x ms ↔ (In x (requirement_ids input.requirements) × ¬ In x (priced_ids q.items)))
            e (missing_iff q.items input.requirements))
          (inr (λ h. absurd (cc)))

    items-Judged :
        (is : List (QuoteItem D))
        → q.items ≡ is
        → WellFormed q input.requirements
        → Judged input (evaluate_items input q is)
    unfolding evaluate_items
    items-Judged [] e w =
        unpriced q qs _ _ first w
          (λ id. (λ k. (k, subst (λ is. ¬ In id (priced_ids is)) (sym e) (λ i. i tt)), λ k. k.0))
          (inl e)
    items-Judged (i ∷ is) e w =
        subst
          (λ is'. Judged input (
            evaluate_priced input q (items_by_requirement_id is')
              (missing_requirement_ids_of input.requirements (items_by_requirement_id is'))))
          e (priced-Judged _ refl w (λ h. absurd (cc (e, h))))

    quote-Judged :
        (issues : List SupplierIssueCode)
        → find_quote_structural_issues q input.requirements ≡ issues
        → Judged input (evaluate_quote input q issues)
    unfolding evaluate_quote
    quote-Judged [] e = items-Judged q.items refl ((issues_iff q input.requirements).0 e)
    quote-Judged (issue ∷ issues) e =
        malformed q qs _ first (λ w. absurd (cc (e, (issues_iff q input.requirements).1 w)))

  first-Judged :
      (input : EvaluateSupplierInput D) (qs : List (Quote D))
      → input.quotes_for_supplier ≡ qs
      → Judged input (evaluate_first input qs)
  unfolding evaluate_first
  first-Judged input [] e = unquoted e
  first-Judged input (q ∷ qs) e = quote-Judged input q qs e _ refl

  -- The evaluation of a supplier that returns, or throws, follows from the first quote of the supplier.
  -- Without a quote it is incomplete and misses every requirement. A quote that prices a requirement
  -- twice, or an unknown one, makes it invalid. Otherwise it is incomplete if the quote has no item or
  -- leaves a requirement unpriced, and misses exactly the requirements that no item prices. Otherwise
  -- it is what the calculation comes to.
  pub evaluate_supplier-Judged :
      (input : EvaluateSupplierInput D) → Judged input (evaluate_supplier input)
  unfolding evaluate_supplier
  evaluate_supplier-Judged input = first-Judged input input.quotes_for_supplier refl
