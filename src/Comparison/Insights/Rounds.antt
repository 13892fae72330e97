-- ===== src/Comparison/Insights/Rounds.antt =====
-- One round of the loop that looks for the leader on merchandise.
use landed_compare.Prelude.{
  ℕ, ◌<◌, ◌≡◌, refl, ◌∙◌, sym, subst, ap, String, Bool-cases, Option, none, some, List, [], ◌∷◌,
  ◌++◌, ltb, ◌==◌, In, ◌⊎◌, inl, inr, eq_iff, arith,
}
use landed_compare.Prelude.Int.{pos}
use landed_compare.Errors.{ok, ok_same}
use landed_compare.Domain.DecimalJs.{DecimalJs, IsDecimalJs}
use landed_compare.Domain.Money
use landed_compare.Domain.Money.{Money}
use landed_compare.Domain.Money.Laws.{Worth, compare_to-Worth}
use landed_compare.Comparison.Insights.{Evaluations, Leaders, merchandise_of, against_lowest, lead}

In-last : {A : Type 0} (x : A) (xs : List A) → In x (xs ++ (x ∷ []))
In-last x [] = inl refl
In-last x (y ∷ ys) = inr (In-last x ys)

In-front : {A : Type 0} (x y : A) (xs : List A) → In x xs → In x (xs ++ (y ∷ []))
In-front x y [] i = absurd (i tt)
In-front x y (z ∷ zs) (inl e) = inl e
In-front x y (z ∷ zs) (inr i) = inr (In-front x y zs i)

module _ {D : Type 0} ⦃j : DecimalJs D⦄ (laws : IsDecimalJs D) (s : ℕ) (c : String) where
  open laws use {numerator, compared_law}

  less-units :
      (a b : Money D) (x y : ℕ)
      → Worth laws s c a (pos x)
      → Worth laws s c b (pos y)
      → Money.is_less_than a b ≡ ok (ltb x y)
  unfolding Money.is_less_than
  less-units a b x y wa wb = rw (compare_to-Worth laws s c a b (pos x) (pos y) wa wb) (ground arith)

  equals-units :
      (a b : Money D) (x y : ℕ)
      → Worth laws s c a (pos x)
      → Worth laws s c b (pos y)
      → Money.equals a b ≡ (x == y)
  unfolding Money.equals
  equals-units a b x y (p, (h, e)) (q, (k, f)) =
      ground (arith, eq_iff a.currency b.currency, compared_law s a.amount b.amount h k, e, f, p, q)

  module _ (evaluations : Evaluations D) (units : String → ℕ) where
    -- The merchandise of each evaluated supplier is `units` of its id, at the scale `s`.
    abbrev pub AreUnits : Type 0
    AreUnits =
        (id : String) (amount : Money D)
        → merchandise_of evaluations id ≡ some amount
        → Worth laws s c amount (pos (units id))

    abbrev pub Lowest : (String → Type 0) → Option (Money D) → List String → Type 0
    Lowest Seen none leaders = (id : String) → Seen id → merchandise_of evaluations id ≡ none
    Lowest Seen (some low) leaders =
        (first : String) × (rest : List String) × (leaders ≡ first ∷ rest)
        × Seen first
        × (merchandise_of evaluations first ≡ some low)
        × ((id : String) (amount : Money D)
            → Seen id
            → merchandise_of evaluations id ≡ some amount
            → (units first < units id) ⊎ (In id leaders × (units id ≡ units first)))

    -- The loop after the suppliers in `Seen`.
    abbrev pub Inv : (String → Type 0) → Leaders D → Type 0
    Inv Seen state = Lowest Seen state.lowest_amount state.leaders

    -- One more supplier is seen.
    abbrev pub Also : (String → Type 0) → String → String → Type 0
    Also Seen x id = Seen id ⊎ (id ≡ x)

    module _ (are : AreUnits) (Seen : String → Type 0) where
      first_priced :
          (id : String) (amount : Money D) (leaders : List String)
          → Lowest Seen none leaders
          → merchandise_of evaluations id ≡ some amount
          → Lowest (Also Seen id) (some amount) (id ∷ [])
      first_priced id amount leaders h e = (
        id,
        [],
        refl,
        inr refl,
        e,
        λ other a seen q. elim seen [
          | inl k ↦ absurd (cc (h other k, q))
          | inr same ↦ inr (inl same, ap units same)
        ],
      )

      lower :
          (id : String) (amount low : Money D) (leaders : List String)
          → Lowest Seen (some low) leaders
          → merchandise_of evaluations id ≡ some amount
          → ((first : String)
              → merchandise_of evaluations first ≡ some low
              → units id < units first)
          → Lowest (Also Seen id) (some amount) (id ∷ [])
      lower id amount low leaders (first, rest, shape, seen, e, all) q less =
          let below = less first e in
          (
            id,
            [],
            refl,
            inr refl,
            q,
            λ other a k r. elim k [
              | inl known ↦ elim (all other a known r) [
                | inl above ↦ inl (omega (arith, above, below))
                | inr (i, same) ↦ inl (omega (arith, same, below))
              ]
              | inr same ↦ inr (inl same, ap units same)
            ],
          )

      tied :
          (id : String) (low : Money D) (leaders : List String)
          → Lowest Seen (some low) leaders
          → ((first : String)
              → merchandise_of evaluations first ≡ some low
              → units id ≡ units first)
          → Lowest (Also Seen id) (some low) (leaders ++ (id ∷ []))
      tied id low leaders (first, rest, shape, seen, e, all) equal = (
        first,
        rest ++ (id ∷ []),
        ap (λ l. l ++ (id ∷ [])) shape,
        inl seen,
        e,
        λ other a k q. elim k [
          | inl known ↦ elim (all other a known q) [
            | inl above ↦ inl above
            | inr (i, same) ↦ inr (In-front other id leaders i, same)
          ]
          | inr same ↦ inr (
            subst (λ x. In x (leaders ++ (id ∷ []))) (sym same) (In-last id leaders),
            ap units same ∙ equal first e,
          )
        ],
      )

      higher :
          (id : String) (low : Money D) (leaders : List String)
          → Lowest Seen (some low) leaders
          → ((first : String)
              → merchandise_of evaluations first ≡ some low
              → units first < units id)
          → Lowest (Also Seen id) (some low) leaders
      higher id low leaders (first, rest, shape, seen, e, all) above = (
        first,
        rest,
        shape,
        inl seen,
        e,
        λ other a k q. elim k [
          | inl known ↦ all other a known q
          | inr same ↦ inl (subst (λ x. units first < units x) (sym same) (above first e))
        ],
      )

      unpriced :
          (id : String) (lowest : Option (Money D)) (leaders : List String)
          → merchandise_of evaluations id ≡ none
          → Lowest Seen lowest leaders
          → Lowest (Also Seen id) lowest leaders
      unpriced id none leaders e h = λ other k. elim k [
        | inl known ↦ h other known
        | inr same ↦ ap (merchandise_of evaluations) same ∙ e
      ]
      unpriced id (some low) leaders e (first, rest, shape, seen, f, all) = (
        first,
        rest,
        shape,
        inl seen,
        f,
        λ other a k q. elim k [
          | inl known ↦ all other a known q
          | inr same ↦ absurd (cc (e, q, same))
        ],
      )

      -- One round, on a supplier with merchandise.
      against-Inv :
          (id : String) (amount : Money D) (lowest : Option (Money D)) (leaders : List String)
          (after : Leaders D)
          → merchandise_of evaluations id ≡ some amount
          → Lowest Seen lowest leaders
          → against_lowest id amount lowest leaders ≡ ok after
          → Inv (Also Seen id) after
      unfolding against_lowest
      against-Inv id amount none leaders after e h q =
          subst (Inv (Also Seen id)) (ok_same q) (first_priced id amount leaders h e)
      against-Inv id amount (some low) leaders after e h q =
          let (first, rest, shape, seen, f, all) = h in
          let worth = are id amount e in
          let worth' = are first low f in
          let less = less-units amount low (units id) (units first) worth worth' in
          let equal = equals-units amount low (units id) (units first) worth worth' in
          let same_units : (other : String)
              → merchandise_of evaluations other ≡ some low
              → pos (units other) ≡ pos (units first) =
            λ other g. sym (are other low g).1.1 ∙ worth'.1.1 in
          elim (Bool-cases (ltb (units id) (units first))) [
            | inl l ↦
                subst (Inv (Also Seen id)) (ok_same (rw (less, l) at q))
                  (lower id amount low leaders h e λ other g. ground (arith, l, same_units other g))
            | inr l ↦ elim (Bool-cases (units id == units first)) [
              | inl t ↦
                  subst (Inv (Also Seen id)) (ok_same (rw (less, l, equal, t) at q))
                    (tied id low leaders h λ other g. ground (arith, t, same_units other g))
              | inr t ↦
                  subst (Inv (Also Seen id)) (ok_same (rw (less, l, equal, t) at q))
                    (higher id low leaders h λ other g. ground (arith, l, t, same_units other g))
            ]
          ]

      pub lead-Inv :
          (id : String) (found : Option (Money D)) (state after : Leaders D)
          → merchandise_of evaluations id ≡ found
          → Inv Seen state
          → lead found id state ≡ ok after
          → Inv (Also Seen id) after
      unfolding lead
      lead-Inv id (some amount) state after e h q =
          against-Inv id amount state.lowest_amount state.leaders after e h q
      lead-Inv id none state after e h q =
          subst (Inv (Also Seen id)) (ok_same q) (unpriced id state.lowest_amount state.leaders e h)
