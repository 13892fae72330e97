-- ===== src/Comparison/Ranking/Ids.antt =====
-- The ids through the ranking: whom it ranks.
use landed_compare.Prelude.{
  ℕ, suc, ◌≡◌, refl, ap, ◌∙◌, String, ◌||◌, Option, none, List, [], ◌∷◌, map, Bool-cases, inl, inr,
  arith, str_eq, Ordering, is_gt,
}
use landed_compare.Prelude.Maps.{contains}
use landed_compare.Prelude.Sorting.{sort_by, insert_by}
use landed_compare.Errors.{
  ok, traverse, for_each, Yields, yielded, then-Yields, last-Yields, traverse-map,
}
use landed_compare.Domain.DecimalJs.{DecimalJs}
use landed_compare.Domain.Money
use landed_compare.Domain.Money.{Money}
use landed_compare.Comparison.Ranking.{
  RankableSupplier, RankedSupplier, RankingResult, Placed, DenseRanked, with_order, by_amount,
  dense_rank, ranked_suppliers, published, percentage_difference, publish, one_currency,
  assert_not_negative, rank_complete_suppliers,
}

-- Sorting keeps the ids.
module _ {A : Type 0} (cmp : A → A → Ordering) (key : A → String) (k : String) where
  contains-insert_by :
      (x : A) (ys : List A)
      → contains k (map key (insert_by cmp x ys)) ≡ (str_eq (key x) k || contains k (map key ys))
  contains-insert_by x [] = refl
  contains-insert_by x (y ∷ ys) = elim (Bool-cases (is_gt (cmp x y))) [
    | inl e ↦ rw (e, contains) (ground (arith, contains-insert_by x ys))
    | inr e ↦ rw (e, contains) refl
  ]

  contains-sort_by : (xs : List A) → contains k (map key (sort_by cmp xs)) ≡ contains k (map key xs)
  contains-sort_by [] = refl
  contains-sort_by (x ∷ xs) =
      contains-insert_by x (sort_by cmp xs) ∙ ap (λ b. str_eq (key x) k || b) (contains-sort_by xs)

module _ {D : Type 0} ⦃j : DecimalJs D⦄ where
  abbrev pub ranked_ids : List (RankedSupplier D) → List String
  ranked_ids = map (λ r. r.supplier_id)

  abbrev pub rankable_ids : List (RankableSupplier D) → List String
  rankable_ids = map (λ r. r.supplier_id)

  abbrev placed_ids : List (Placed D) → List String
  placed_ids = map (λ p. p.supplier_id)

  placed_ids-with_order :
      (n : ℕ) (ss : List (RankableSupplier D)) → placed_ids (with_order n ss) ≡ rankable_ids ss
  unfolding with_order
  placed_ids-with_order n [] = refl
  placed_ids-with_order n (s ∷ ss) = ap (λ r. s.supplier_id ∷ r) (placed_ids-with_order (suc n) ss)

  dense_ids :
      (ps : List (Placed D)) (rank : ℕ) (previous : Option (Money D))
      → map (λ (e : DenseRanked D). e.supplier_id) (dense_rank rank previous ps) ≡ placed_ids ps
  unfolding dense_rank
  dense_ids [] rank previous = refl
  dense_ids (p ∷ ps) rank previous = ap (λ r. p.supplier_id ∷ r) (dense_ids ps _ _)

  published-id :
      (lowest : Money D) (entry : DenseRanked D) (r : RankedSupplier D)
      → published lowest entry ≡ ok r
      → r.supplier_id ≡ entry.supplier_id
  unfolding published
  published-id lowest entry r h =
      let P = λ (r : RankedSupplier D). r.supplier_id ≡ entry.supplier_id in
      yielded P
        (then-Yields P (Money.subtract entry.ranking_amount lowest) _ λ difference _.
          then-Yields P (percentage_difference difference lowest) _ λ percentages _. refl)
        h

  publish-ids :
      (entries : List (DenseRanked D))
      → Yields
          (λ result. ranked_ids result.ranked ≡ map (λ e. e.supplier_id) entries)
          (publish entries)
  unfolding publish
  publish-ids [] = refl
  publish-ids (first ∷ rest) =
      let Q = λ (ranked : List (RankedSupplier D)).
        ranked_ids ranked ≡ map (λ e. e.supplier_id) (first ∷ rest) in
      let P = λ (result : RankingResult D). Q result.ranked in
      then-Yields P (traverse (published first.ranking_amount) (first ∷ rest)) _ λ ranked e.
        yielded Q
          (traverse-map (published first.ranking_amount) (λ r. r.supplier_id) (λ e. e.supplier_id)
            (published-id first.ranking_amount) (first ∷ rest))
          e

  -- The ranking has the ids that it was given.
  pub rank-ids :
      (suppliers : List (RankableSupplier D)) (k : String)
      → Yields
          (λ result. contains k (ranked_ids result.ranked) ≡ contains k (rankable_ids suppliers))
          (rank_complete_suppliers suppliers)
  unfolding rank_complete_suppliers ranked_suppliers
  rank-ids suppliers k =
      let P = λ (result : RankingResult D).
        contains k (ranked_ids result.ranked) ≡ contains k (rankable_ids suppliers) in
      then-Yields P (for_each assert_not_negative suppliers) _ λ _ _.
        then-Yields P (one_currency suppliers) _ λ _ _.
          last-Yields P (publish (ranked_suppliers suppliers)) λ result e.
            let entries = ranked_suppliers suppliers in
            let same =
              yielded
                (λ (r : RankingResult D). ranked_ids r.ranked ≡ map (λ e. e.supplier_id) entries)
                (publish-ids entries) e in
            let placed = with_order 0 suppliers in
            ap (contains k) (same ∙ dense_ids (sort_by by_amount placed) 0 none)
            ∙ (contains-sort_by by_amount (λ p. p.supplier_id) k placed
                ∙ ap (contains k) (placed_ids-with_order 0 suppliers))
