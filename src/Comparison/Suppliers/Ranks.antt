-- ===== src/Comparison/Suppliers/Ranks.antt =====
-- Whom the ranking of a comparison is given: the complete suppliers.
use landed_compare.Prelude.{
  ◌≡◌, ◌↔◌, ◌≢◌, refl, sym, subst, String, true, false, ◌||◌, Option, none, some, List, [], ◌∷◌,
  ◌++◌, map, All, Bool-cases, inl, inr, arith, eq_iff,
}
use landed_compare.Prelude.Maps.{contains}
use landed_compare.Domain.DecimalJs.{DecimalJs}
use landed_compare.Domain.Money.{Money}
use landed_compare.Comparison.Structure.Ids.{Distinct}
use landed_compare.Comparison.Ranking.{RankableSupplier}
use landed_compare.Comparison.Ranking.Ids.{rankable_ids}
use landed_compare.Comparison.Evaluation.{
  SupplierEvaluation, SupplierStatus, complete, incomplete, invalid,
}
use landed_compare.Comparison.Suppliers.{rankable, rankable_of}

module _ {D : Type 0} ⦃j : DecimalJs D⦄ where
  abbrev pub evaluation_ids : List (SupplierEvaluation D) → List String
  evaluation_ids = map (λ e. e.supplier_id)

  -- A complete evaluation has a ranking amount.
  abbrev pub Ranks : SupplierEvaluation D → Type 0
  Ranks e = e.status ≡ complete → (total : Money D) × (e.ranking_amount ≡ some total)

  rankable_of-contains :
      (id k : String) (s : SupplierStatus) (a : Option (Money D))
      → contains k (rankable_ids (rankable_of id s a)) ≡ true
      → id ≡ k
  unfolding rankable_of
  rankable_of-contains id k complete (some a) h = ground (arith, eq_iff id k, h)
  rankable_of-contains id k complete none h = absurd (cc)
  rankable_of-contains id k incomplete a h = absurd (cc)
  rankable_of-contains id k invalid a h = absurd (cc)

  rankable_of-complete :
      (id : String) (s : SupplierStatus) (a : Option (Money D))
      → (s ≡ complete → (total : Money D) × (a ≡ some total))
      → (contains id (rankable_ids (rankable_of id s a)) ≡ true) ↔ (s ≡ complete)
  unfolding rankable_of
  rankable_of-complete id complete a h =
      let (total, e) = h refl in rw e (λ _. refl, λ _. ground (arith, eq_iff id id))
  rankable_of-complete id incomplete a h = (λ k. absurd (cc), λ k. absurd (cc))
  rankable_of-complete id invalid a h = (λ k. absurd (cc), λ k. absurd (cc))

  contains-append :
      (k : String) (xs ys : List (RankableSupplier D))
      → contains k (rankable_ids (xs ++ ys))
        ≡ (contains k (rankable_ids xs) || contains k (rankable_ids ys))
  contains-append k [] ys = refl
  contains-append k (x ∷ xs) ys = ground (arith, contains-append k xs ys)

  rankable-within :
      (k : String) (es : List (SupplierEvaluation D))
      → contains k (evaluation_ids es) ≡ false
      → contains k (rankable_ids (rankable es)) ≡ false
  unfolding rankable
  rankable-within k [] h = refl
  rankable-within k (e ∷ es) h =
      elim (Bool-cases
        (contains k (rankable_ids (rankable_of e.supplier_id e.status e.ranking_amount)))) [
          | inl f ↦ absurd (
              ground (
                arith,
                h,
                eq_iff e.supplier_id k,
                rankable_of-contains e.supplier_id k e.status e.ranking_amount f,
              ))
          | inr f ↦ ground (
            arith,
            f,
            h,
            rankable-within k es,
            contains-append k (rankable_of e.supplier_id e.status e.ranking_amount) (rankable es),
          )
        ]

  fresh_contains :
      (k : String) (es : List (SupplierEvaluation D))
      → All (λ other. other ≢ k) (evaluation_ids es)
      → contains k (evaluation_ids es) ≡ false
  fresh_contains k [] a = refl
  fresh_contains k (e ∷ es) (n, a) =
      ground (arith, n, eq_iff e.supplier_id k, fresh_contains k es a)

  other_contains :
      (e : SupplierEvaluation D) (es : List (SupplierEvaluation D)) (k : String)
      → k ≢ e.supplier_id
      → contains k (rankable_ids (rankable (e ∷ es))) ≡ contains k (rankable_ids (rankable es))
  unfolding rankable
  other_contains e es k n =
      elim (Bool-cases
        (contains k (rankable_ids (rankable_of e.supplier_id e.status e.ranking_amount)))) [
          | inl f ↦
              absurd (n (sym (rankable_of-contains e.supplier_id k e.status e.ranking_amount f)))
          | inr f ↦ ground (
            arith,
            f,
            contains-append k (rankable_of e.supplier_id e.status e.ranking_amount) (rankable es),
          )
        ]

  -- Whom the ranking is given: the complete ones.
  abbrev pub RankedIff : List (SupplierEvaluation D) → SupplierEvaluation D → Type 0
  RankedIff es e =
      (contains e.supplier_id (rankable_ids (rankable es)) ≡ true) ↔ (e.status ≡ complete)

  others-RankedIff :
      (e : SupplierEvaluation D) (es os : List (SupplierEvaluation D))
      → All (λ other. other ≢ e.supplier_id) (evaluation_ids os)
      → All (RankedIff es) os
      → All (RankedIff (e ∷ es)) os
  others-RankedIff e es [] a r = tt
  others-RankedIff e es (o ∷ os) (n, a) (r, rs) = (
    subst (λ b. (b ≡ true) ↔ (o.status ≡ complete)) (sym (other_contains e es o.supplier_id n)) r,
    others-RankedIff e es os a rs,
  )

  pub rankable-RankedIff :
      (es : List (SupplierEvaluation D))
      → Distinct (evaluation_ids es)
      → All Ranks es
      → All (RankedIff es) es
  unfolding rankable
  rankable-RankedIff [] d a = tt
  rankable-RankedIff (e ∷ es) (n, d) (r, rs) =
      let own = rankable_of-complete e.supplier_id e.status e.ranking_amount r in
      let rest = rankable-within e.supplier_id es (fresh_contains e.supplier_id es n) in
      let whole =
        contains-append e.supplier_id (rankable_of e.supplier_id e.status e.ranking_amount)
          (rankable es) in
      (
        (λ h. own.0 (ground (arith, whole, rest, h)), λ h. ground (arith, whole, own.1 h)),
        others-RankedIff e es es n (rankable-RankedIff es d rs),
      )
