-- ===== src/Comparison/Structure/Laws.antt =====
-- The structural validation passes exactly the inputs that are meaningful.
use landed_compare.Prelude.{
  ◌≤◌, ◌≡◌, ◌↔◌, refl, sym, String, Bool, true, false, not, Option, none, some, List, [], ◌∷◌, map,
  any, length, str_eq, eq_iff, All, In, Bool-cases, inl, inr, arith,
}
use landed_compare.Prelude.Maps.{contains, lookup}
use mathlib.Core.Logic.Iff
use landed_compare.Errors.{StructuralIssue, ok, invalid_supplier_cost_list, base_currency_mismatch}
use landed_compare.Domain.DecimalJs.{DecimalJs}
use landed_compare.Domain.Quantity
use landed_compare.Domain.Project.{Project, RequirementItem, Supplier}
use landed_compare.Calculation.ExchangeRate.{ExchangeRateTable}
use landed_compare.Comparison.Structure.{
  CostList, CostLists, array, nullish, other_value, refuse_if, assert_unique_ids, count_of,
  count_quotes, has_count_above_one, is_array, assert_cost_list,
  assert_supplier_cost_lists_are_arrays, supplier_ids, quoted_suppliers, is_empty,
  validate_comparison_structure,
}
use landed_compare.Comparison.Structure.Ids.{
  Distinct, All-of, then_iff, refuse_iff, any_iff, for_each_iff, All-iff, unique_after_iff,
}
use landed_compare.Comparison.Structure.Counts.{count_quotes_iff}

pub contains_iff : (id : String) (ids : List String) → (contains id ids ≡ true) ↔ In id ids
contains_iff id [] = (λ h. absurd (cc), λ h. absurd (h tt))
contains_iff id (x ∷ xs) = (
  λ h. elim (Bool-cases (str_eq x id)) [
    | inl e ↦ inl (sym ((eq_iff x id).0 e))
    | inr e ↦ inr ((contains_iff id xs).0 (ground (arith, e, h)))
  ],
  λ i. elim i [
    | inl e ↦ ground (arith, eq_iff x id, sym e)
    | inr k ↦ ground (arith, (contains_iff id xs).1 k)
  ],
)

pub not_iff : (b : Bool) → (not b ≡ false) ↔ (b ≡ true)
not_iff true = (λ h. refl, λ h. refl)
not_iff false = (λ h. absurd (cc), λ h. absurd (cc))

module _ {D : Type 0} where
  -- A present entry of a supplier is an array.
  abbrev pub IsArray : Option (CostList D) → Type 0
  IsArray none = Unit
  IsArray (some (array costs)) = Unit
  IsArray (some nullish) = ⊥
  IsArray (some other_value) = ⊥

  abbrev pub Readable : CostLists D → Supplier → Type 0
  Readable none s = Unit
  Readable (some lists) s = IsArray (lookup s.id lists)

  pub record IsComparable (p : Project D) (table : ExchangeRateTable D) (costs : CostLists D)
      ⦃j : DecimalJs D⦄ : Type 0 where
    pub one_base : p.base_currency ≡ table.base
    pub some_requirement : 1 ≤ length p.requirements
    pub distinct_requirements : Distinct (map (λ r. r.id) p.requirements)
    pub quantities : All (λ r. Quantity.is_zero r.required_quantity ≡ false) p.requirements
    pub distinct_suppliers : Distinct (supplier_ids p.suppliers)
    pub known_suppliers : All (λ id. In id (supplier_ids p.suppliers)) (quoted_suppliers p.quotes)
    pub one_quote_each : Distinct (quoted_suppliers p.quotes)
    pub readable : All (Readable costs) p.suppliers

  is_array_iff : (c : Option (CostList D)) → (not (is_array c) ≡ false) ↔ IsArray c
  unfolding is_array
  is_array_iff none = (λ h. tt, λ h. refl)
  is_array_iff (some (array costs)) = (λ h. tt, λ h. refl)
  is_array_iff (some nullish) = (λ h. absurd (cc), λ h. absurd h)
  is_array_iff (some other_value) = (λ h. absurd (cc), λ h. absurd h)

  cost_list_iff :
      (lists : List (String × CostList D)) (s : Supplier)
      → (assert_cost_list lists s ≡ ok tt) ↔ Readable (some lists) s
  unfolding assert_cost_list
  cost_list_iff lists s =
      let refused = refuse_iff (not (is_array (lookup s.id lists))) invalid_supplier_cost_list in
      let array = is_array_iff (lookup s.id lists) in
      (λ h. array.0 (refused.0 h), λ h. refused.1 (array.1 h))

  Readable-iff :
      (costs : CostLists D) (suppliers : List Supplier)
      → (assert_supplier_cost_lists_are_arrays costs suppliers ≡ ok tt)
        ↔ All (Readable costs) suppliers
  unfolding assert_supplier_cost_lists_are_arrays
  Readable-iff none [] = (λ h. tt, λ h. refl)
  Readable-iff none (s ∷ ss) = (λ h. (tt, (Readable-iff none ss).0 refl), λ h. refl)
  Readable-iff (some lists) suppliers =
      let each = for_each_iff (assert_cost_list lists) suppliers in
      let arrays =
        All-iff (λ s. assert_cost_list lists s ≡ ok tt) (Readable (some lists))
          (cost_list_iff lists) suppliers in
      (λ h. arrays.0 (each.0 h), λ h. each.1 (arrays.1 h))

  empty_iff : (rs : List (RequirementItem D)) → (is_empty rs ≡ false) ↔ (1 ≤ length rs)
  unfolding is_empty
  empty_iff [] = (λ h. absurd (cc), λ h. absurd (omega arith))
  empty_iff (r ∷ rs) = (λ h. omega arith, λ h. refl)

module _ {D : Type 0} ⦃j : DecimalJs D⦄ (p : Project D) (table : ExchangeRateTable D)
    (costs : CostLists D) where
  base_iff :
      (refuse_if (not (str_eq p.base_currency table.base)) base_currency_mismatch ≡ ok tt)
      ↔ (p.base_currency ≡ table.base)
  base_iff = Iff.trans (refuse_iff _ _) (Iff.trans (not_iff _) (eq_iff p.base_currency table.base))

  ids_iff :
      (i : StructuralIssue) (ids : List String) → (assert_unique_ids ids i ≡ ok tt) ↔ Distinct ids
  unfolding assert_unique_ids
  ids_iff i ids =
      let unique = unique_after_iff i [] ids in
      (λ h. (unique.0 h).1, λ d. unique.1 (All-of ids (λ id. refl), d))

  known_iff :
      (i : StructuralIssue) (known ids : List String)
      → (refuse_if (any (λ id. not (contains id known)) ids) i ≡ ok tt)
        ↔ All (λ id. In id known) ids
  known_iff i known ids = Iff.trans (refuse_iff _ i) (
      Iff.trans (any_iff _ ids) (
        All-iff (λ id. not (contains id known) ≡ false) (λ id. In id known)
          (λ id. Iff.trans (not_iff _) (contains_iff id known)) ids))

  one_each_iff :
      (i : StructuralIssue) (ids : List String)
      → (refuse_if (has_count_above_one (count_quotes [] ids)) i ≡ ok tt) ↔ Distinct ids
  unfolding has_count_above_one count_of lookup
  one_each_iff i ids =
      let counted = count_quotes_iff [] ids refl in
      Iff.trans (refuse_iff _ i) (λ h. (counted.0 h).1, λ d. counted.1 (All-of ids (λ id. refl), d))

  -- The validation passes a project with its exchange rates and cost lists exactly when they have one
  -- base currency, there is a requirement, the ids of the requirements and of the suppliers are
  -- distinct, no quantity is zero, each quote is of a known supplier, no two quotes are of the same
  -- one, and what stands under the id of a supplier is an array of costs.
  pub validate-IsComparable :
      (validate_comparison_structure p table costs ≡ ok tt) ↔ IsComparable p table costs
  unfolding validate_comparison_structure
  validate-IsComparable = (
    λ h.
        let (base, h1) = (then_iff _ _).0 h in
        let (some_one, h2) = (then_iff _ _).0 h1 in
        let (requirements, h3) = (then_iff _ _).0 h2 in
        let (quantities, h4) = (then_iff _ _).0 h3 in
        let (suppliers, h5) = (then_iff _ _).0 h4 in
        let (known, h6) = (then_iff _ _).0 h5 in
        let (one_each, readable) = (then_iff _ _).0 h6 in
        record {
          one_base = base_iff.0 base;
          some_requirement = (empty_iff _).0 ((refuse_iff _ _).0 some_one);
          distinct_requirements = (ids_iff _ _).0 requirements;
          quantities = (any_iff _ _).0 ((refuse_iff _ _).0 quantities);
          distinct_suppliers = (ids_iff _ _).0 suppliers;
          known_suppliers = (known_iff _ _ _).0 known;
          one_quote_each = (one_each_iff _ _).0 one_each;
          readable = (Readable-iff _ _).0 readable;
        },
    λ h. (then_iff _ _).1 (
      base_iff.1 h.one_base,
      (then_iff _ _).1 (
        (refuse_iff _ _).1 ((empty_iff _).1 h.some_requirement),
        (then_iff _ _).1 (
          (ids_iff _ _).1 h.distinct_requirements,
          (then_iff _ _).1 (
            (refuse_iff _ _).1 ((any_iff _ _).1 h.quantities),
            (then_iff _ _).1 (
              (ids_iff _ _).1 h.distinct_suppliers,
              (then_iff _ _).1 (
                (known_iff _ _ _).1 h.known_suppliers,
                (then_iff _ _).1
                    ((one_each_iff _ _).1 h.one_quote_each, (Readable-iff _ _).1 h.readable),
              ),
            ),
          ),
        ),
      ),
    ),
  )
