-- ===== src/Comparison/Insights/Laws.antt =====
-- What each reported outcome says of the suppliers.
use landed_compare.Comparison.Insights.Rounds.{AreUnits}
use landed_compare.Comparison.Insights.Leader.{Leads, find-Leads}
use landed_compare.Prelude.{
  ℕ, ◌≢◌, ◌≡◌, refl, String, false, Bool-cases, Option, none, some, List, [], ◌∷◌, ◌++◌, All, In,
  inl, inr,
}
use landed_compare.Prelude.Maps.{contains, lookup}
use landed_compare.Errors.{ok, Yields, then-Yields, yielded}
use landed_compare.Domain.DecimalJs.{DecimalJs, IsDecimalJs}
use landed_compare.Domain.Money.{Money}
use landed_compare.Comparison.Ranking.{RankedSupplier, RankingResult}
use landed_compare.Comparison.Evaluation.{
  SupplierEvaluation, SupplierStatus, complete, incomplete, invalid,
}
use landed_compare.Comparison.Insights.{
  ComparisonInsight, no_comparable_suppliers, only_comparable_supplier,
  lowest_calculated_landed_cost, tied_lowest_calculated_landed_cost,
  lowest_merchandise_not_lowest_landed_cost, incomplete_quote, invalid_quote, Evaluations, listed,
  winner, comparability, flip_of, merchandise_flip, find_unique_merchandise_leader, when_incomplete,
  when_invalid, when_found_incomplete, when_found_invalid, incomplete_insight, invalid_insight,
  each, build_comparison_insights,
}

All-append : {A : Type 0} (P : A → Type 0) (xs ys : List A) → All P xs → All P ys → All P (xs ++ ys)
All-append P [] ys h k = k
All-append P (x ∷ xs) ys (h, hs) k = (h, All-append P xs ys hs k)

module _ {D : Type 0} ⦃j : DecimalJs D⦄ where
  each-All :
      (P : ComparisonInsight D → Type 0) (f : String → List (ComparisonInsight D))
      (ids : List String)
      → ((id : String) → In id ids → All P (f id))
      → All P (each f ids)
  unfolding each
  each-All P f [] h = tt
  each-All P f (id ∷ ids) h =
      All-append P (f id) (each f ids) (h id (inl refl)) (each-All P f ids (λ i m. h i (inr m)))

  module _ (laws : IsDecimalJs D) (s : ℕ) (c : String) (units : String → ℕ)
      (suppliers : List String) (evaluations : Evaluations D) (ranking : RankingResult D) where
    -- The evaluation that is found for a supplier of the project.
    abbrev pub Found : String → SupplierStatus → (SupplierEvaluation D → Type 0) → Type 0
    Found id status P =
        In id suppliers
        × ((e : SupplierEvaluation D) × (lookup id evaluations ≡ some e)
            × (e.status ≡ status)
            × P e)

    -- What an insight says, by its kind.
    abbrev pub Justified : ComparisonInsight D → Type 0
    Justified no_comparable_suppliers = ranking.ranked ≡ []
    Justified (only_comparable_supplier id amount) =
        (r : RankedSupplier D) × (ranking.ranked ≡ r ∷ [])
        × (r.supplier_id ≡ id)
        × (r.ranking_amount ≡ amount)
    Justified (lowest_calculated_landed_cost id amount) =
        (ranking.lowest_supplier_ids ≡ id ∷ []) × (ranking.lowest_ranking_amount ≡ some amount)
    Justified (tied_lowest_calculated_landed_cost ids amount) =
        (ranking.lowest_supplier_ids ≡ ids)
        × ((id : String) → ids ≢ id ∷ [])
        × (ranking.lowest_ranking_amount ≡ some amount)
    Justified (lowest_merchandise_not_lowest_landed_cost leaders ids amount lowest) =
        (id : String) × (leaders ≡ id ∷ [])
        × (contains id ranking.lowest_supplier_ids ≡ false)
        × (ids ≡ ranking.lowest_supplier_ids)
        × Leads laws s c evaluations units ranking.ranked id amount
        × (ranking.lowest_ranking_amount ≡ some lowest)
    Justified (incomplete_quote id ids) =
        Found id incomplete λ e. listed e.missing_requirement_ids ≡ ids
    Justified (invalid_quote id issues) = Found id invalid λ e. e.issues ≡ issues

    winner-Justified :
        (ids : List String) (lowest : Option (Money D))
        → ranking.lowest_supplier_ids ≡ ids
        → ranking.lowest_ranking_amount ≡ lowest
        → All Justified (winner ids lowest)
    unfolding winner
    winner-Justified ids none h k = tt
    winner-Justified [] (some amount) h k = ((h, (λ id e. cc), k), tt)
    winner-Justified (id ∷ []) (some amount) h k = ((h, k), tt)
    winner-Justified (id ∷ other ∷ ids) (some amount) h k = ((h, (λ x e. cc), k), tt)

    comparability-Justified :
        (ranked : List (RankedSupplier D))
        → ranking.ranked ≡ ranked
        → All Justified (comparability ranking ranked)
    unfolding comparability
    comparability-Justified [] h = (h, tt)
    comparability-Justified (only ∷ []) h = ((only, h, refl, refl), tt)
    comparability-Justified (first ∷ second ∷ rest) h =
        winner-Justified ranking.lowest_supplier_ids ranking.lowest_ranking_amount refl refl

    flip_of-Justified :
        (are : AreUnits laws s c evaluations units) (leader : Option (String × Money D))
        (lowest : Option (Money D))
        → find_unique_merchandise_leader ranking evaluations ≡ ok leader
        → ranking.lowest_ranking_amount ≡ lowest
        → All Justified (flip_of ranking leader lowest)
    unfolding flip_of
    flip_of-Justified are none lowest h k = tt
    flip_of-Justified are (some (id, amount)) none h k = tt
    flip_of-Justified are (some (id, amount)) (some lowest) h k =
        elim (Bool-cases (contains id ranking.lowest_supplier_ids)) [
          | inl e ↦ rw e tt
          | inr e ↦ rw e (
            (id, refl, e, refl, find-Leads laws s c evaluations units are ranking id amount h, k),
            tt,
          )
        ]

    merchandise_flip-Justified :
        (are : AreUnits laws s c evaluations units) (ranked : List (RankedSupplier D))
        → Yields (All Justified) (merchandise_flip ranking evaluations ranked)
    unfolding merchandise_flip
    merchandise_flip-Justified are [] = tt
    merchandise_flip-Justified are (only ∷ []) = tt
    merchandise_flip-Justified are (first ∷ second ∷ rest) =
        then-Yields (All Justified) (find_unique_merchandise_leader ranking evaluations) _
          λ leader h. flip_of-Justified are leader ranking.lowest_ranking_amount h refl

    when_incomplete-Justified :
        (id : String) (e : SupplierEvaluation D) (status : SupplierStatus)
        → In id suppliers
        → lookup id evaluations ≡ some e
        → e.status ≡ status
        → All Justified (when_incomplete id status e)
    unfolding when_incomplete
    when_incomplete-Justified id e complete m h s = tt
    when_incomplete-Justified id e invalid m h s = tt
    when_incomplete-Justified id e incomplete m h s = ((m, (e, h, s, refl)), tt)

    when_invalid-Justified :
        (id : String) (e : SupplierEvaluation D) (status : SupplierStatus)
        → In id suppliers
        → lookup id evaluations ≡ some e
        → e.status ≡ status
        → All Justified (when_invalid id status e)
    unfolding when_invalid
    when_invalid-Justified id e complete m h s = tt
    when_invalid-Justified id e incomplete m h s = tt
    when_invalid-Justified id e invalid m h s = ((m, (e, h, s, refl)), tt)

    incomplete-Justified :
        (id : String) (found : Option (SupplierEvaluation D))
        → In id suppliers
        → lookup id evaluations ≡ found
        → All Justified (when_found_incomplete id found)
    unfolding when_found_incomplete
    incomplete-Justified id none m h = tt
    incomplete-Justified id (some e) m h = when_incomplete-Justified id e e.status m h refl

    incomplete_insight-Justified :
        (id : String) → In id suppliers → All Justified (incomplete_insight evaluations id)
    unfolding incomplete_insight
    incomplete_insight-Justified id m = incomplete-Justified id (lookup id evaluations) m refl

    invalid-Justified :
        (id : String) (found : Option (SupplierEvaluation D))
        → In id suppliers
        → lookup id evaluations ≡ found
        → All Justified (when_found_invalid id found)
    unfolding when_found_invalid
    invalid-Justified id none m h = tt
    invalid-Justified id (some e) m h = when_invalid-Justified id e e.status m h refl

    invalid_insight-Justified :
        (id : String) → In id suppliers → All Justified (invalid_insight evaluations id)
    unfolding invalid_insight
    invalid_insight-Justified id m = invalid-Justified id (lookup id evaluations) m refl

    -- Suppose that decimals behave as documented and that the merchandise amounts of the evaluations are
    -- whole units of one scale and currency. Then every reported outcome is true of the ranking and the
    -- evaluations. "No comparable suppliers" is said of an empty ranking and "only" of a ranking of one
    -- supplier. The lowest suppliers are those of the ranking, at its lowest amount, and tied ones are
    -- not just one. A supplier that is reported to lead on merchandise alone is ranked, has less
    -- merchandise than every other ranked supplier, and is not one of the lowest. A supplier that is
    -- reported as incomplete or invalid is one of the project that was evaluated so, with the
    -- requirements or the issues of its evaluation.
    pub build_comparison_insights-Justified :
        (are : AreUnits laws s c evaluations units) (insights : List (ComparisonInsight D))
        → build_comparison_insights suppliers evaluations ranking ≡ ok insights
        → All Justified insights
    unfolding build_comparison_insights
    build_comparison_insights-Justified are insights h =
        yielded (All Justified)
          (then-Yields (All Justified) (merchandise_flip ranking evaluations ranking.ranked) _
            λ flip q. All-append Justified _ _ (comparability-Justified ranking.ranked refl) (
              All-append Justified _ _
                (yielded (All Justified) (merchandise_flip-Justified are ranking.ranked) q)
                (All-append Justified _ _
                  (each-All Justified (incomplete_insight evaluations) suppliers
                    incomplete_insight-Justified)
                  (each-All Justified (invalid_insight evaluations) suppliers
                    invalid_insight-Justified))))
          h
