-- ===== src/Comparison/Evaluation/Items.antt =====
-- The items of a quote by their requirements: repeats, unknown requirements, and what is missing.
use landed_compare.Prelude.{
  ◌≡◌, ◌↔◌, ◌≢◌, refl, sym, subst, String, true, false, none, some, List, [], ◌∷◌, All, In,
  Bool-cases, Option-cases, inl, inr, arith,
}
use landed_compare.Prelude.Maps.{contains, lookup, lookup-insert_all}
use landed_compare.Domain.Project.{RequirementItem, QuoteItem}
use landed_compare.Comparison.Structure.Ids.{Distinct, seen_iff, All-both_iff}
use landed_compare.Comparison.Structure.Laws.{contains_iff}
use landed_compare.Comparison.Evaluation.{
  has_repeat, has_unknown, requirement_ids, priced_ids, items_by_requirement_id,
  missing_requirement_ids_of, has_item,
}

-- The loop of the structural checks finds a repeated id exactly when the ids are not distinct.
pub has_repeat_iff :
    (seen ids : List String)
    → (has_repeat seen ids ≡ false) ↔ (All (λ id. contains id seen ≡ false) ids × Distinct ids)
unfolding has_repeat
has_repeat_iff seen [] = (λ h. (tt, tt), λ h. refl)
has_repeat_iff seen (id ∷ ids) =
    let rest = has_repeat_iff (id ∷ seen) ids in
    let split =
      All-both_iff (λ o. contains o (id ∷ seen) ≡ false) (λ o. contains o seen ≡ false)
        (λ o. o ≢ id) (seen_iff id seen) ids in
    (
      λ h.
          let (new, distinct) = rest.0 (ground (arith, h)) in
          let (unseen, others) = split.0 new in ((ground (arith, h), unseen), (others, distinct)),
      λ ((new, unseen), (others, distinct)).
          ground (arith, new, rest.1 (split.1 (unseen, others), distinct)),
    )

pub has_unknown_iff :
    (known ids : List String) → (has_unknown known ids ≡ false) ↔ All (λ id. In id known) ids
unfolding has_unknown
has_unknown_iff known [] = (λ h. tt, λ h. refl)
has_unknown_iff known (id ∷ ids) =
    let rest = has_unknown_iff known ids in
    let here = contains_iff id known in
    (
      λ h. (here.0 (ground (arith, h)), rest.0 (ground (arith, h))),
      λ (k, ks). ground (arith, here.1 k, rest.1 ks),
    )

module _ {D : Type 0} where
  no_item_iff :
      (items : List (QuoteItem D)) (id : String)
      → (lookup id (items_by_requirement_id items) ≡ none) ↔ (¬ In id (priced_ids items))
  unfolding items_by_requirement_id lookup
  no_item_iff items id =
      let found = lookup-insert_all (λ (i : QuoteItem D). i.requirement_id) id items [] in
      let within = contains_iff id (priced_ids items) in
      (
        λ h k. absurd (ground (arith, within.1 k, found.0 h)),
        λ n. elim (Bool-cases (contains id (priced_ids items))) [
          | inl e ↦ absurd (n (within.0 e))
          | inr e ↦ found.1 (e, refl)
        ],
      )

  no_item :
      (m : List (String × QuoteItem D)) (r : RequirementItem D)
      → lookup r.id m ≡ none
      → has_item m r ≡ false
  unfolding has_item
  no_item m r e = rw (e, has_item)

  some_item :
      (m : List (String × QuoteItem D)) (r : RequirementItem D) (i : QuoteItem D)
      → lookup r.id m ≡ some i
      → has_item m r ≡ true
  unfolding has_item
  some_item m r i e = rw (e, has_item)

  -- The requirements without an item are those that no item names.
  pub missing_iff :
      (items : List (QuoteItem D)) (requirements : List (RequirementItem D)) (id : String)
      → In id (missing_requirement_ids_of requirements (items_by_requirement_id items))
        ↔ (In id (requirement_ids requirements) × ¬ In id (priced_ids items))
  unfolding missing_requirement_ids_of
  missing_iff items [] id = (λ h. absurd (h tt), λ (h, _). absurd (h tt))
  missing_iff items (r ∷ rs) id =
      let rest = missing_iff items rs id in
      let own = no_item_iff items r.id in
      elim (Option-cases (lookup r.id (items_by_requirement_id items))) [
        | inl e ↦
            rw (no_item _ r e, In)
              (
                λ k. elim k [
                  | inl q ↦ (inl q, subst (λ x. ¬ In x (priced_ids items)) (sym q) (own.0 e))
                  | inr t ↦ (inr ((rest.0 t).0), (rest.0 t).1)
                ],
                λ (k, n). elim k [ inl q ↦ inl q | inr t ↦ inr (rest.1 (t, n)) ],
              )
        | inr (i, e) ↦
            rw (some_item _ r i e, In)
              (
                λ t. (inr ((rest.0 t).0), (rest.0 t).1),
                λ (k, n). elim k [
                  | inl q ↦
                      absurd (ground (arith, e, own.1 (subst (λ x. ¬ In x (priced_ids items)) q n)))
                  | inr t ↦ rest.1 (t, n)
                ],
              )
      ]
