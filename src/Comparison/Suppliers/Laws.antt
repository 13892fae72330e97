-- ===== src/Comparison/Suppliers/Laws.antt =====
-- The entries of a comparison: every supplier in the project's order, ranked exactly if it is complete.
use landed_compare.Prelude.{
  ℕ, ◌≡◌, ◌↔◌, ◌≢◌, refl, sym, subst, ◌∙◌, String, Option, none, some, List, [], ◌∷◌, map, All,
  Bool-cases, inl, inr,
}
use landed_compare.Prelude.Maps.{contains, lookup, insert_all, lookup-insert_all}
use landed_compare.Errors.{
  ok, traverse, yielded, then-Yields, last-Yields, traverse-map, traverse-All,
}
use landed_compare.Domain.DecimalJs.{DecimalJs}
use landed_compare.Domain.Project.{Supplier, Quote}
use landed_compare.Calculation.CurrencyMinorUnit.{resolve_minor_unit}
use landed_compare.Comparison.Structure.{validate_comparison_structure, supplier_ids}
use landed_compare.Comparison.Structure.Ids.{Distinct}
use landed_compare.Comparison.Structure.Laws.{validate-IsComparable}
use landed_compare.Comparison.Insights.{build_comparison_insights}
use landed_compare.Comparison.Ranking.{RankedSupplier, RankingResult, rank_complete_suppliers}
use landed_compare.Comparison.Ranking.Ids.{ranked_ids, rankable_ids, rank-ids}
use landed_compare.Comparison.Evaluation.{SupplierEvaluation, complete, evaluate_supplier}
use landed_compare.Comparison.Evaluation.Complete.{Judged-Checked}
use landed_compare.Comparison.Evaluation.Laws.{evaluate_supplier-Judged}
use landed_compare.Comparison.Evaluation.Incomplete.{evaluate_supplier-supplier}
use landed_compare.Comparison.Suppliers.{
  SupplierComparisonInput, SupplierComparisonEntry, SupplierComparisonResult, rankable,
  costs_for_supplier, evaluate_one, enriched, comparison_entry, evaluation_entry, ranked_entry,
  group_quotes_by_supplier_id, compare_suppliers,
}
use landed_compare.Comparison.Suppliers.Ranks.{Ranks, RankedIff, evaluation_ids, rankable-RankedIff}

module _ {D : Type 0} ⦃j : DecimalJs D⦄ where
  -- An entry has a rank exactly if its supplier is complete.
  abbrev pub RankFits : SupplierComparisonEntry D → Type 0
  RankFits entry = (entry.rank ≡ none) ↔ (entry.evaluation.status ≢ complete)

  enriched-rank :
      (e : SupplierEvaluation D) (o : Option (RankedSupplier D))
      → ((enriched e o).rank ≡ none) ↔ (o ≡ none)
  unfolding enriched
  enriched-rank e none = (λ h. refl, λ h. refl)
  enriched-rank e (some info) = (λ h. absurd (cc), λ h. absurd (cc))

  enriched-evaluation :
      (e : SupplierEvaluation D) (o : Option (RankedSupplier D)) → (enriched e o).evaluation ≡ e
  unfolding enriched
  enriched-evaluation e none = refl
  enriched-evaluation e (some info) = refl

  absent_iff :
      (es : List (SupplierEvaluation D)) (ranked : List (RankedSupplier D))
      (e : SupplierEvaluation D)
      → contains e.supplier_id (ranked_ids ranked)
        ≡ contains e.supplier_id (rankable_ids (rankable es))
      → RankedIff es e
      → (lookup e.supplier_id (insert_all (map ranked_entry ranked) []) ≡ none)
        ↔ (e.status ≢ complete)
  unfolding lookup
  absent_iff es ranked e same fits =
      let found =
        lookup-insert_all (λ (r : RankedSupplier D). r.supplier_id) e.supplier_id ranked [] in
      (
        λ h k. absurd (cc ((found.0 h).0, same, fits.1 k)),
        λ n. elim (Bool-cases (contains e.supplier_id (ranked_ids ranked))) [
          | inl p ↦ absurd (n (fits.0 (sym same ∙ p)))
          | inr p ↦ found.1 (p, refl)
        ],
      )

  entry-RankFits :
      (es : List (SupplierEvaluation D)) (ranked : List (RankedSupplier D))
      (e : SupplierEvaluation D)
      → contains e.supplier_id (ranked_ids ranked)
        ≡ contains e.supplier_id (rankable_ids (rankable es))
      → RankedIff es e
      → RankFits (comparison_entry (insert_all (map ranked_entry ranked) []) e)
  unfolding comparison_entry
  entry-RankFits es ranked e same fits =
      let info = lookup e.supplier_id (insert_all (map ranked_entry ranked) []) in
      let absent = absent_iff es ranked e same fits in
      let rank = enriched-rank e info in
      subst (λ e'. ((enriched e info).rank ≡ none) ↔ (e'.status ≢ complete))
        (sym (enriched-evaluation e info)) (λ h. absent.0 (rank.0 h), λ n. rank.1 (absent.1 n))

  entries-RankFits :
      (es : List (SupplierEvaluation D)) (ranked : List (RankedSupplier D))
      → ((k : String) → contains k (ranked_ids ranked) ≡ contains k (rankable_ids (rankable es)))
      → (os : List (SupplierEvaluation D)) → All (RankedIff es) os
      → All RankFits (map (comparison_entry (insert_all (map ranked_entry ranked) [])) os)
  entries-RankFits es ranked same [] r = tt
  entries-RankFits es ranked same (o ∷ os) (r, rs) =
      (entry-RankFits es ranked o (same o.supplier_id) r, entries-RankFits es ranked same os rs)

  entry_ids :
      (ranks : List (String × RankedSupplier D)) (es : List (SupplierEvaluation D))
      → map
          (λ (x : SupplierComparisonEntry D). x.evaluation.supplier_id)
          (map (comparison_entry ranks) es)
        ≡ evaluation_ids es
  unfolding comparison_entry
  entry_ids ranks [] = refl
  entry_ids ranks (e ∷ es) =
      rw (enriched-evaluation e (lookup e.supplier_id ranks), entry_ids ranks es) refl

  module _ (input : SupplierComparisonInput D) (minor_unit : ℕ)
      (quotes : List (String × List (Quote D))) where
    evaluated-supplier :
        (s : Supplier) (e : SupplierEvaluation D)
        → evaluate_one input minor_unit quotes s ≡ ok e
        → (e.supplier_id ≡ s.id) × Ranks e
    unfolding evaluate_one
    evaluated-supplier s e h =
        let P = λ (e : SupplierEvaluation D). (e.supplier_id ≡ s.id) × Ranks e in
        yielded P
          (then-Yields P (costs_for_supplier input.costs_by_supplier_id s.id) _ λ costs _.
            last-Yields P (evaluate_supplier _) λ e q. (
              evaluate_supplier-supplier _ e q,
              λ k.
                  let checked = Judged-Checked _ e (evaluate_supplier-Judged _) q k in
                  (checked.1, checked.5),
            ))
          h

  abbrev pub Compared : SupplierComparisonInput D → SupplierComparisonResult D → Type 0
  Compared input r =
      (map (λ (x : SupplierComparisonEntry D). x.evaluation.supplier_id) r.supplier_results
        ≡ supplier_ids input.project.suppliers)
      × All RankFits r.supplier_results

  -- A comparison that succeeds has an entry for each supplier of the project, in the project's order,
  -- and an entry has a rank exactly if its supplier is complete.
  pub compare_suppliers-Compared :
      (input : SupplierComparisonInput D) (r : SupplierComparisonResult D)
      → compare_suppliers input ≡ ok r
      → Compared input r
  unfolding compare_suppliers
  compare_suppliers-Compared input r h =
      let P = Compared input in
      let project = input.project in
      let quotes = group_quotes_by_supplier_id project.quotes in
      yielded P
        (then-Yields P
          (validate_comparison_structure project input.exchange_rate_table
            input.costs_by_supplier_id)
          _
          λ _ valid.
            then-Yields P (resolve_minor_unit project.base_currency input.minor_unit_overrides) _
              λ minor_unit _.
                let f = evaluate_one input minor_unit quotes in
                then-Yields P (traverse f project.suppliers) _ λ es evaluated.
                  then-Yields P (rank_complete_suppliers (rankable es)) _ λ ranking ranked.
                    then-Yields P
                      (build_comparison_insights (supplier_ids project.suppliers)
                        (insert_all (map evaluation_entry es) []) ranking)
                      _
                      λ _ _.
                        let ids : evaluation_ids es ≡ supplier_ids project.suppliers =
                          yielded (λ es. evaluation_ids es ≡ supplier_ids project.suppliers)
                            (traverse-map f (λ e. e.supplier_id) (λ s. s.id)
                              (λ s e q. (evaluated-supplier input minor_unit quotes s e q).0)
                              project.suppliers)
                            evaluated in
                        let ranks : All Ranks es =
                          yielded (All Ranks)
                            (traverse-All f Ranks
                              (λ s e q. (evaluated-supplier input minor_unit quotes s e q).1)
                              project.suppliers)
                            evaluated in
                        let comparable =
                          (validate-IsComparable project input.exchange_rate_table
                              input.costs_by_supplier_id).0
                            valid in
                        let distinct = subst Distinct (sym ids) comparable.distinct_suppliers in
                        let same = λ (k : String).
                          yielded
                            (λ (x : RankingResult D).
                              contains k (ranked_ids x.ranked)
                              ≡ contains k (rankable_ids (rankable es)))
                            (rank-ids (rankable es) k) ranked in
                        (
                          entry_ids _ es ∙ ids,
                          entries-RankFits es ranking.ranked same es
                              (rankable-RankedIff es distinct ranks),
                        ))
        h
