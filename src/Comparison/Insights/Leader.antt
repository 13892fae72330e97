-- ===== src/Comparison/Insights/Leader.antt =====
-- The supplier that leads on merchandise alone.
use landed_compare.Prelude.{
  ℕ, ◌<◌, ◌≡◌, refl, ◌∙◌, sym, subst, ap, String, Option, none, some, List, [], ◌∷◌, map, In, ◌⊎◌,
  inl, inr,
}
use landed_compare.Errors.{ok, ok_same, Result-cases}
use landed_compare.Domain.DecimalJs.{DecimalJs, IsDecimalJs}
use landed_compare.Domain.Money.{Money}
use landed_compare.Comparison.Ranking.{RankedSupplier, RankingResult}
use landed_compare.Comparison.Insights.Rounds.{AreUnits, Lowest, Inv, Also, lead-Inv}
use landed_compare.Comparison.Insights.{
  Evaluations, Leaders, merchandise_of, lead, lead_all, only_leader, find_unique_merchandise_leader,
}

module _ {D : Type 0} ⦃j : DecimalJs D⦄ (laws : IsDecimalJs D) (s : ℕ) (c : String)
    (evaluations : Evaluations D) (units : String → ℕ) where
  Lowest-same :
      (P Q : String → Type 0) (lowest : Option (Money D)) (leaders : List String)
      → ((id : String) → P id → Q id)
      → ((id : String) → Q id → P id)
      → Lowest laws s c evaluations units P lowest leaders
      → Lowest laws s c evaluations units Q lowest leaders
  Lowest-same P Q none leaders f g h = λ id k. h id (g id k)
  Lowest-same P Q (some low) leaders f g (first, rest, shape, seen, e, all) =
      (first, rest, shape, f first seen, e, λ id a k q. all id a (g id k) q)

  -- Seen before the loop, or in it.
  abbrev Within : (String → Type 0) → List (RankedSupplier D) → String → Type 0
  Within Seen entries id = Seen id ⊎ In id (map (λ r. r.supplier_id) entries)

  lead_all-Inv :
      (are : AreUnits laws s c evaluations units) (entries : List (RankedSupplier D))
      (Seen : String → Type 0) (state after : Leaders D)
      → Inv laws s c evaluations units Seen state
      → lead_all evaluations state entries ≡ ok after
      → Inv laws s c evaluations units (Within Seen entries) after
  unfolding lead_all
  lead_all-Inv are [] Seen state after h q =
      subst (Inv laws s c evaluations units (Within Seen [])) (ok_same q) (
        Lowest-same Seen (Within Seen []) state.lowest_amount state.leaders (λ id k. inl k)
          (λ id k. elim k [ inl seen ↦ seen | inr i ↦ absurd (i tt) ]) h)
  lead_all-Inv are (e ∷ es) Seen state after h q =
      let id = e.supplier_id in
      elim (Result-cases (lead (merchandise_of evaluations id) id state)) [
        | inl (f, r) ↦ absurd (cc (rw r at q))
        | inr (next, r) ↦
            Lowest-same (Within (Also laws s c evaluations units Seen id) es) (Within Seen (e ∷ es))
              after.lowest_amount after.leaders
              (λ x k. elim k [
                | inl (inl seen) ↦ inl seen
                | inl (inr same) ↦ inr (inl same)
                | inr i ↦ inr (inr i)
              ])
              (λ x k. elim k [
                | inl seen ↦ inl (inl seen)
                | inr (inl same) ↦ inl (inr same)
                | inr (inr i) ↦ inr i
              ])
              (lead_all-Inv are es (Also laws s c evaluations units Seen id) next after
                (lead-Inv laws s c evaluations units are Seen id (merchandise_of evaluations id)
                  state next refl h r)
                (rw r at q))
      ]

  -- The supplier is ranked, with this amount of merchandise, and every other ranked supplier whose
  -- merchandise is known has more of it.
  abbrev pub Leads : List (RankedSupplier D) → String → Money D → Type 0
  Leads ranked id amount =
      In id (map (λ r. r.supplier_id) ranked)
      × (merchandise_of evaluations id ≡ some amount)
      × ((other : String) (a : Money D)
          → In other (map (λ r. r.supplier_id) ranked)
          → merchandise_of evaluations other ≡ some a
          → (units id < units other) ⊎ (other ≡ id))

  only_leader-Leads :
      (ranked : List (RankedSupplier D)) (lowest : Option (Money D)) (leaders : List String)
      (id : String) (amount : Money D)
      → Lowest laws s c evaluations units (Within (λ x. ⊥) ranked) lowest leaders
      → only_leader lowest leaders ≡ some (id, amount)
      → Leads ranked id amount
  unfolding only_leader
  only_leader-Leads ranked none leaders id amount h q = absurd (cc)
  only_leader-Leads ranked (some low) [] id amount h q = absurd (cc)
  only_leader-Leads ranked (some low) (x ∷ y ∷ ys) id amount h q = absurd (cc)
  only_leader-Leads ranked (some low) (x ∷ []) id amount (first, rest, shape, seen, e, all) q =
      let here : x ≡ id = cc in
      let worth : low ≡ amount = cc in
      let one : first ≡ id = cc in
      (
        subst (λ z. In z (map (λ r. r.supplier_id) ranked)) one
            (elim seen [ inl n ↦ absurd n | inr i ↦ i ]),
        ap (merchandise_of evaluations) (sym one) ∙ (e ∙ ap some worth),
        λ other a k r. elim (all other a (inr k) r) [
          | inl more ↦ inl (subst (λ z. units z < units other) one more)
          | inr (i, same) ↦ elim i [ inl at ↦ inr (at ∙ here) | inr n ↦ absurd (n tt) ]
        ],
      )

  pub find-Leads :
      (are : AreUnits laws s c evaluations units) (ranking : RankingResult D) (id : String)
      (amount : Money D)
      → find_unique_merchandise_leader ranking evaluations ≡ ok (some (id, amount))
      → Leads ranking.ranked id amount
  unfolding find_unique_merchandise_leader
  find-Leads are ranking id amount h =
      let start : Leaders D = record { lowest_amount = none; leaders = [] } in
      elim (Result-cases (lead_all evaluations start ranking.ranked)) [
        | inl (f, r) ↦ absurd (cc (rw r at h))
        | inr (final, r) ↦
            only_leader-Leads ranking.ranked final.lowest_amount final.leaders id amount
              (lead_all-Inv are ranking.ranked (λ x. ⊥) start final (λ x k. absurd k) r)
              (ok_same (rw r at h))
      ]
