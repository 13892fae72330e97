-- ===== src/Comparison/Ranking/Laws.antt =====
-- The ranks say exactly how the settled totals compare.
use landed_compare.Prelude.{
  ℕ, suc, ◌+◌, ◌≤◌, ◌<◌, ◌≡◌, refl, String, true, false, Option, none, some, List, [], ◌∷◌, arith,
  All, Bool-cases, map, ap, inl, inr, eq_iff, is_gt, is_eq, compare,
}
use mathlib.Core.List.{Perm}
use landed_compare.Prelude.Int.{pos}
use landed_compare.Prelude.Sorting.{sort_by-perm, sort_by-All, sort_by-Ascending, Ascending}
use landed_compare.Domain.DecimalJs.{DecimalJs, IsDecimalJs}
use landed_compare.Domain.Money
use landed_compare.Domain.Money.{Money}
use landed_compare.Domain.Money.Laws.{Worth}
use landed_compare.Comparison.Ranking.{
  RankableSupplier, Placed, DenseRanked, with_order, by_amount, dense_rank, ranked_suppliers,
}

module _ {D : Type 0} ⦃j : DecimalJs D⦄ (laws : IsDecimalJs D) (s : ℕ) (c : String)
    (value : Placed D → ℕ) where
  open laws use {numerator, compared_law}

  -- The settled total of a supplier is `value` units at the scale `s`.
  abbrev pub IsWorth : Placed D → Type 0
  IsWorth p = Worth laws s c p.ranking_amount (pos (value p))

  compared-value :
      (a b : Money D) (x y : ℕ)
      → Worth laws s c a (pos x)
      → Worth laws s c b (pos y)
      → j.compared_to a.amount b.amount ≡ compare x y
  compared-value a b x y (_, (h, e)) (_, (k, f)) =
      rw (compared_law s a.amount b.amount h k, e, f) (ground arith)

  equals-value :
      (a b : Money D) (x y : ℕ)
      → Worth laws s c a (pos x)
      → Worth laws s c b (pos y)
      → Money.equals a b ≡ is_eq (compare x y)
  unfolding Money.equals
  equals-value a b x y wa wb =
      ground (arith, compared-value a b x y wa wb, eq_iff a.currency b.currency, wa.0, wb.0)

  by_amount-above :
      (a b : Placed D) → IsWorth a → IsWorth b → is_gt (by_amount a b) ≡ true → value b ≤ value a
  unfolding by_amount
  by_amount-above a b wa wb h =
      ground (arith, compared-value a.ranking_amount b.ranking_amount (value a) (value b) wa wb)

  by_amount-below :
      (a b : Placed D) → IsWorth a → IsWorth b → is_gt (by_amount a b) ≡ false → value a ≤ value b
  unfolding by_amount
  by_amount-below a b wa wb h =
      ground (arith, compared-value a.ranking_amount b.ranking_amount (value a) (value b) wa wb)

  -- An entry that comes after a group of rank `rank` and value `v`.
  abbrev pub After : ℕ → ℕ → DenseRanked D → Type 0
  After rank v e =
      (rank ≤ e.rank)
      × (v ≤ value e.placed)
      × (e.rank ≡ rank → value e.placed ≡ v)
      × (value e.placed ≡ v → e.rank ≡ rank)

  -- Each entry with every later one: the ranks and the totals compare alike.
  abbrev pub Agree : List (DenseRanked D) → Type 0
  Agree [] = Unit
  Agree (e ∷ es) = All (After e.rank (value e.placed)) es × Agree es

  -- The ranks go up by one at most from an entry to the next.
  abbrev pub NoGap : ℕ → List (DenseRanked D) → Type 0
  NoGap rank [] = Unit
  NoGap rank (e ∷ es) = (rank ≤ e.rank) × (e.rank ≤ rank + 1) × NoGap e.rank es

  All-After :
      (rank rank' v v' : ℕ) (es : List (DenseRanked D))
      → rank < rank'
      → v < v'
      → All (After rank' v') es
      → All (After rank v) es
  All-After rank rank' v v' [] h k a = tt
  All-After rank rank' v v' (e ∷ es) h k (a, as') = (
    (omega arith, omega arith, λ q. absurd (omega arith), λ q. absurd (omega arith)),
    All-After rank rank' v v' es h k as',
  )

  dense_rank-Agree :
      (rank v : ℕ) (previous : Money D) (ps : List (Placed D))
      → Worth laws s c previous (pos v)
      → All IsWorth ps
      → All (λ p. v ≤ value p) ps
      → Ascending value ps
      → let out = dense_rank rank (some previous) ps in
        All (After rank v) out × Agree out × NoGap rank out
  unfolding dense_rank
  dense_rank-Agree rank v previous [] w ws vs a = (tt, tt, tt)
  dense_rank-Agree rank v previous (p ∷ ps) w (wp, ws) (vp, vs) (first, a) =
      let same = equals-value p.ranking_amount previous (value p) v wp w in
      elim (Bool-cases (Money.equals p.ranking_amount previous)) [
        | inl e ↦
            let q : value p ≡ v = ground (arith, same, e) in
            let (after, agree, gaps) = dense_rank-Agree rank v previous ps w ws vs a in
            rw e (
              ((omega arith, vp, λ _. q, λ _. refl), after),
              (rw q after, agree),
              (omega arith, omega arith, gaps),
            )
        | inr e ↦
            let q : v < value p = ground (arith, same, e) in
            let (after, agree, gaps) =
              dense_rank-Agree (suc rank) (value p) p.ranking_amount ps wp ws first a in
            rw e (
              (
                (omega arith, omega arith, λ r. absurd (omega arith), λ r. absurd (omega arith)),
                All-After rank (suc rank) v (value p) _ (omega arith) q after,
              ),
              (after, agree),
              (omega arith, omega arith, gaps),
            )
      ]

  dense_rank-placed :
      (ps : List (Placed D)) (rank : ℕ) (previous : Option (Money D))
      → map (λ e. e.placed) (dense_rank rank previous ps) ≡ ps
  unfolding dense_rank
  dense_rank-placed [] rank previous = refl
  dense_rank-placed (p ∷ ps) rank previous = ap (λ rest. p ∷ rest) (dense_rank-placed ps _ _)

  -- The ranking of sorted suppliers, from its first entry.
  dense_rank-first :
      (ps : List (Placed D))
      → All IsWorth ps
      → Ascending value ps
      → let out = dense_rank 0 none ps in Agree out × NoGap 0 out × All (λ e. 1 ≤ e.rank) out
  unfolding dense_rank
  dense_rank-first [] ws a = (tt, tt, tt)
  dense_rank-first (p ∷ ps) (w, ws) (first, a) =
      let (after, agree, gaps) = dense_rank-Agree 1 (value p) p.ranking_amount ps w ws first a in
      ((after, agree), (omega arith, omega arith, gaps), (omega arith, All-rank _ _ _ after))
    where
      All-rank :
          (rank v : ℕ) (es : List (DenseRanked D))
          → All (After rank v) es
          → All (λ e. rank ≤ e.rank) es
      All-rank rank v [] h = tt
      All-rank rank v (e ∷ es) (h, hs) = (h.0, All-rank rank v es hs)

module _ {D : Type 0} ⦃j : DecimalJs D⦄ (laws : IsDecimalJs D) (s : ℕ) (c : String)
    (value : RankableSupplier D → ℕ) where
  with_order-IsWorth :
      (order : ℕ) (suppliers : List (RankableSupplier D))
      → All (λ r. Worth laws s c r.ranking_amount (pos (value r))) suppliers
      → All (IsWorth laws s c (λ p. value p.supplier)) (with_order order suppliers)
  unfolding with_order
  with_order-IsWorth order [] h = tt
  with_order-IsWorth order (r ∷ rs) (w, ws) = (w, with_order-IsWorth (suc order) rs ws)

  -- Let each supplier's settled total be a number of units of one currency. Then the ranking holds
  -- every supplier exactly once, with its place in the input; of two entries the earlier one has the smaller
  -- or the same total, and their ranks are the same exactly when their totals are; and the ranks
  -- start at 1 and never leave a number out.
  pub ranked_suppliers-Agree :
      (suppliers : List (RankableSupplier D))
      → All (λ r. Worth laws s c r.ranking_amount (pos (value r))) suppliers
      → let out = ranked_suppliers suppliers in
        Perm (map (λ e. e.placed) out) (with_order 0 suppliers)
        × Agree laws s c (λ p. value p.supplier) out
        × NoGap laws s c (λ p. value p.supplier) 0 out
        × All (λ e. 1 ≤ e.rank) out
  unfolding ranked_suppliers
  ranked_suppliers-Agree suppliers ws =
      let v = λ (p : Placed D). value p.supplier in
      let worth = with_order-IsWorth 0 suppliers ws in
      let (agree, gaps, one) =
        dense_rank-first laws s c v _ (sort_by-All by_amount (IsWorth laws s c v) _ worth) (
          sort_by-Ascending by_amount (IsWorth laws s c v) v (by_amount-above laws s c v)
            (by_amount-below laws s c v) _ worth) in
      (rw (dense_rank-placed laws s c v _ 0 none) (sort_by-perm by_amount _), agree, gaps, one)
