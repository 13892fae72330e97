-- ===== src/Comparison/Evaluation/Complete.antt =====
-- A complete supplier: its lines add up to its settled landed total, and none is below zero.
use landed_compare.Prelude.{
  ◌≡◌, refl, sym, ap, subst, ◌∙◌, ℕ, String, false, not, Option, none, some, List, [], ◌∷◌, map,
  All, Option-cases, inl, inr, arith,
}
use landed_compare.Prelude.Int.{ℤ, pos, ◌+ℤ◌, is_neg}
use landed_compare.Errors.{
  Result, ok, traverse, for_each, throw_if, Yields, yielded, then-Yields, last-Yields, ok_same,
  throw_if-passed, reduce, settlement_reconciliation,
}
use landed_compare.Domain.DecimalJs.{DecimalJs, IsDecimalJs}
use landed_compare.Domain.Money
use landed_compare.Domain.Money.{Money}
use landed_compare.Domain.Money.Laws.{Worth, is_negative-Worth}
use landed_compare.Domain.Money.Sums.{
  sum_ℤ, Worths, reduce-add-Worth, zero-Worth, zero_+ℤ, equals-Worth,
}
use landed_compare.Domain.Project.{Quote, QuoteItem}
use landed_compare.Calculation.Merchandise.{calculate_quote_merchandise}
use landed_compare.Calculation.CostCalculation.Supplier.{CostInput, calculate_supplier_costs}
use landed_compare.Calculation.CostCalculation.Discounts.{validate_discount_line_allocations}
use landed_compare.Calculation.CostCalculation.Lines.{allocate_supplier_costs}
use landed_compare.Comparison.Structure.Ids.{then_iff}
use landed_compare.Comparison.Structure.Laws.{not_iff}
use landed_compare.Comparison.Evaluation.Laws.{
  Judged, unquoted, malformed, unpriced, priced, evaluate_supplier-Judged, captured_ok,
}
use landed_compare.Comparison.Evaluation.Lines.{
  SupplierLineResult, merchandise_line, targets_of, build_line_results, all_present, landed_values,
  assert_lines_reconcile_to_total, assert_no_line_settles_negative, not_negative, reconcile,
}
use landed_compare.Comparison.Evaluation.{
  SupplierEvaluation, complete, EvaluateSupplierInput, stopped, explained, require_item,
  resolve_line, run_calculation_pipeline, captured, evaluate_supplier,
}

module _ {D : Type 0} ⦃j : DecimalJs D⦄ where
  -- The pipeline ends with lines that have passed both checks against the settled landed total.
  abbrev pub Checked : EvaluateSupplierInput D → SupplierEvaluation D → Type 0
  Checked input e =
      (lines : List (SupplierLineResult D)) × (total : Money D) × (e.supplier_id
        ≡ input.supplier.id)
      × (e.status ≡ complete)
      × (e.lines ≡ some lines)
      × (e.ranking_amount ≡ some total)
      × (assert_lines_reconcile_to_total lines total ≡ ok tt)
      × (assert_no_line_settles_negative lines ≡ ok tt)

  pub pipeline-Checked :
      (input : EvaluateSupplierInput D) (q : Quote D) (items : List (String × QuoteItem D))
      → Yields (Checked input) (run_calculation_pipeline input q items)
  unfolding run_calculation_pipeline
  pipeline-Checked input q items =
      let P = Checked input in
      let table = input.exchange_rate_table in
      then-Yields P (traverse (require_item items) input.requirements) _ λ matched _.
        then-Yields P (traverse resolve_line matched) _ λ priced _.
          then-Yields P (calculate_quote_merchandise (map merchandise_line priced) q.currency table)
            _
            λ m _.
              let cost_input : CostInput D = record {
                merchandise_total = m.base_currency_total;
                costs = input.costs;
                exchange_rate_table = table;
                minor_unit = input.minor_unit;
              } in
              then-Yields P (calculate_supplier_costs cost_input) _ λ result _.
                let targets = targets_of priced m.line_subtotals in
                then-Yields P (validate_discount_line_allocations result targets table) _ λ _ _.
                  then-Yields P (explained (allocate_supplier_costs result targets table)) _
                    λ allocation _.
                      then-Yields P
                        (build_line_results priced targets result.settled_merchandise_total
                          (allocation.0) table input.minor_unit)
                        _
                        λ lines _.
                          then-Yields P
                            (assert_lines_reconcile_to_total lines result.settled_landed_total) _
                            λ _ reconciled.
                              then-Yields P (assert_no_line_settles_negative lines) _
                                λ _ none_negative. (
                                  lines, result.settled_landed_total, refl, refl, refl, refl,
                                  reconciled, none_negative,
                                )

  -- What the two checks say of the lines, if each has a settled landed value.
  abbrev pub AddUp : IsDecimalJs D → ℕ → String → List (SupplierLineResult D) → Money D → Type 0
  AddUp laws s c lines total =
      (values : List (Money D)) (zs : List ℤ) (y : ℤ)
      → all_present (landed_values lines) ≡ some values
      → Worths laws s c values zs
      → Worth laws s c total y
      → (sum_ℤ zs ≡ y) × All (λ z. is_neg z ≡ false) zs

  present-cons :
      (v : Option (Money D)) (vs : List (Option (Money D))) (values : List (Money D))
      → all_present (v ∷ vs) ≡ some values
      → (m : Money D) × (ms : List (Money D)) × (v ≡ some m)
        × (all_present vs ≡ some ms)
        × (values ≡ m ∷ ms)
  unfolding all_present
  present-cons none vs values h = absurd (cc)
  present-cons (some m) vs values h = elim (Option-cases (all_present vs)) [
    | inl e ↦ absurd (ground (arith, e, h))
    | inr (ms, e) ↦ (m, ms, refl, e, ground (arith, e, h))
  ]

  values-not_negative :
      (lines : List (SupplierLineResult D)) (values : List (Money D))
      → all_present (landed_values lines) ≡ some values
      → assert_no_line_settles_negative lines ≡ ok tt
      → All (λ m. Money.is_negative m ≡ false) values
  unfolding assert_no_line_settles_negative all_present
  values-not_negative [] [] h n = tt
  values-not_negative [] (v ∷ vs) h n = absurd (cc)
  values-not_negative (l ∷ ls) values h n =
      let (m, ms, e, f, g) = present-cons l.settled_landed_value (landed_values ls) values h in
      let (here, rest) = (then_iff (not_negative l.settled_landed_value) (for_each _ ls)).0 n in
      let here' : throw_if (Money.is_negative m) settlement_reconciliation ≡ ok tt =
        subst (λ v. not_negative v ≡ ok tt) e here in
      subst (All _) (sym g) (
        throw_if-passed (Money.is_negative m) settlement_reconciliation here',
        values-not_negative ls ms f rest,
      )

  units-not_negative :
      (laws : IsDecimalJs D) (s : ℕ) (c : String) (values : List (Money D)) (zs : List ℤ)
      → All (λ m. Money.is_negative m ≡ false) values
      → Worths laws s c values zs
      → All (λ z. is_neg z ≡ false) zs
  units-not_negative laws s c [] [] n ws = tt
  units-not_negative laws s c (m ∷ ms) (z ∷ zs) (n, ns) (w, ws) =
      (sym (is_negative-Worth laws s c m z w) ∙ n, units-not_negative laws s c ms zs ns ws)
  units-not_negative laws s c [] (z ∷ zs) n ws = absurd ws
  units-not_negative laws s c (m ∷ ms) [] n ws = absurd ws

  lines-sum :
      (laws : IsDecimalJs D) (s : ℕ) (c : String) (total : Money D) (values : List (Money D))
      (zs : List ℤ) (y : ℤ)
      → Worths laws s c values zs
      → Worth laws s c total y
      → reconcile (some values) total ≡ ok tt
      → sum_ℤ zs ≡ y
  unfolding reconcile
  lines-sum laws s c total values zs y ws (p, w) n =
      let P = λ (done : Unit {0}). sum_ℤ zs ≡ y in
      yielded P
        (then-Yields P (Money.zero total.currency) _ λ zero zeroed.
          then-Yields P (reduce Money.add zero values) _ λ sum added.
            last-Yields P (throw_if (not (Money.equals sum total)) settlement_reconciliation)
              λ _ equal.
                let nothing =
                  zero-Worth laws s c zero (subst (λ k. Money.zero k ≡ ok zero) p zeroed) in
                let (sum', sums, worth) =
                  reduce-add-Worth laws s c values zs zero (pos 0) nothing ws in
                let worth' : Worth laws s c sum (sum_ℤ zs) =
                  subst (λ z. Worth laws s c sum z) (zero_+ℤ _)
                    (subst (λ m. Worth laws s c m (pos 0 +ℤ sum_ℤ zs)) (ok_same (sym sums ∙ added))
                      worth) in
                equals-Worth laws s c sum total (sum_ℤ zs) y worth' (p, w)
                  ((not_iff _).0 (throw_if-passed _ _ equal)))
        n

  checked-AddUp :
      (laws : IsDecimalJs D) (s : ℕ) (c : String) (lines : List (SupplierLineResult D))
      (total : Money D)
      → assert_lines_reconcile_to_total lines total ≡ ok tt
      → assert_no_line_settles_negative lines ≡ ok tt
      → AddUp laws s c lines total
  unfolding assert_lines_reconcile_to_total
  checked-AddUp laws s c lines total r n values zs y h ws w = (
    lines-sum laws s c total values zs y ws w (subst (λ o. reconcile o total ≡ ok tt) h r),
    units-not_negative laws s c values zs (values-not_negative lines values h n) ws,
  )

  captured-Checked :
      (input : EvaluateSupplierInput D) (q : Quote D) (items : List (String × QuoteItem D))
      (e : SupplierEvaluation D)
      → captured input.supplier.id q.id (run_calculation_pipeline input q items) ≡ ok e
      → e.status ≡ complete
      → Checked input e
  unfolding stopped
  captured-Checked input q items e h k =
      elim (captured_ok input.supplier.id q.id (run_calculation_pipeline input q items) h) [
        | inl p ↦ yielded (Checked input) (pipeline-Checked input q items) p
        | inr p ↦ absurd (cc (ap (λ x. x.status) p, k))
      ]

  pub Judged-Checked :
      (input : EvaluateSupplierInput D) (e : SupplierEvaluation D)
      {r : Result (SupplierEvaluation D)}
      → Judged input r
      → r ≡ ok e
      → e.status ≡ complete
      → Checked input e
  unfolding stopped
  Judged-Checked input e (unquoted p) h k = absurd (cc (ap (λ x. x.status) (ok_same h), k))
  Judged-Checked input e (malformed q qs is p w) h k =
      absurd (cc (ap (λ x. x.status) (ok_same h), k))
  Judged-Checked input e (unpriced q qs code ids p w m n) h k =
      absurd (cc (ap (λ x. x.status) (ok_same h), k))
  Judged-Checked input e (priced q qs p w n all) h k = captured-Checked input q _ e h k

  -- If a supplier is evaluated as complete and each of its lines has a settled landed value, these values
  -- add up to the ranking amount exactly, and none is below zero.
  pub evaluate_supplier-AddUp :
      (laws : IsDecimalJs D) (s : ℕ) (c : String) (input : EvaluateSupplierInput D)
      (e : SupplierEvaluation D) (lines : List (SupplierLineResult D)) (total : Money D)
      (values : List (Money D)) (zs : List ℤ) (y : ℤ)
      → evaluate_supplier input ≡ ok e
      → e.status ≡ complete
      → e.lines ≡ some lines
      → e.ranking_amount ≡ some total
      → all_present (landed_values lines) ≡ some values
      → Worths laws s c values zs
      → Worth laws s c total y
      → (sum_ℤ zs ≡ y) × All (λ z. is_neg z ≡ false) zs
  evaluate_supplier-AddUp laws s c input e lines total values zs y h k l t present ws w =
      let (lines', total', _, _, l', t', r, n) =
        Judged-Checked input e (evaluate_supplier-Judged input) h k in
      let same : lines' ≡ lines = cc (l, l') in
      let same' : total' ≡ total = cc (t, t') in
      checked-AddUp laws s c lines total
        (subst (λ x. assert_lines_reconcile_to_total x total ≡ ok tt) same
          (subst (λ x. assert_lines_reconcile_to_total lines' x ≡ ok tt) same' r))
        (subst (λ x. assert_no_line_settles_negative x ≡ ok tt) same n) values zs y present ws w
