-- ===== src/Comparison/Structure.antt =====
-- `src/comparison/ComparisonStructuralValidation.ts`: what makes a whole comparison meaningless.
pub mod Ids
pub mod Counts
pub mod Laws
use landed_compare.Prelude.{
  ℕ, suc, String, Bool, true, false, not, ◌||◌, Option, none, some, List, [], ◌∷◌, map, any, ltb,
  str_eq,
}
use landed_compare.Prelude.Maps.{contains, lookup, insert}
use landed_compare.Errors.{
  StructuralIssue, Result, ok, ◌>>=◌, ◌>>◌, throw_if, for_each, invalid_comparison_input,
  empty_requirements, duplicate_requirement_id, zero_required_quantity, duplicate_supplier_id,
  orphan_quote, duplicate_quote_for_supplier, base_currency_mismatch, invalid_supplier_cost_list,
}
use landed_compare.Domain.DecimalJs.{DecimalJs}
use landed_compare.Domain.Quantity
use landed_compare.Domain.Project.{Project, RequirementItem, Supplier, Quote}
use landed_compare.Calculation.AdditionalCost.{AdditionalCost}
use landed_compare.Calculation.ExchangeRate.{ExchangeRateTable}

-- What a caller may have put under a supplier's key: an array, null or undefined, or anything else.
pub data CostList (D : Type 0) : Type 0 where
  array : List (AdditionalCost D) → CostList D
  nullish other_value : CostList D

-- `costsBySupplierId`, by its own keys; `none` if it is omitted.
abbrev pub CostLists : Type 0 → Type 0
CostLists D = Option (List (String × CostList D))

pub refuse_if : Bool → StructuralIssue → Result (Unit {0})
refuse_if found issue = throw_if found (invalid_comparison_input issue)

-- The loop of `assertUniqueIds`, with the ids seen so far.
pub unique_after : StructuralIssue → List String → List String → Result (Unit {0})
unfolding refuse_if
unique_after issue seen [] = ok tt
unique_after issue seen (id ∷ ids) = do
  refuse_if (contains id seen) issue
  unique_after issue (id ∷ seen) ids

pub assert_unique_ids : List String → StructuralIssue → Result (Unit {0})
unfolding unique_after
assert_unique_ids ids issue = unique_after issue [] ids

pub count_of : String → List (String × ℕ) → ℕ
count_of id counts = elim (lookup id counts) [ none ↦ 0 | some n ↦ n ]

-- `quoteCountBySupplierId`, after the loop over the quotes.
pub count_quotes : List (String × ℕ) → List String → List (String × ℕ)
unfolding count_of
count_quotes counts [] = counts
count_quotes counts (id ∷ ids) = count_quotes (insert id (suc (count_of id counts)) counts) ids

pub has_count_above_one : List (String × ℕ) → Bool
has_count_above_one = any (λ entry. ltb 1 (entry.1))

pub is_array : {D : Type 0} → Option (CostList D) → Bool
is_array none = true
is_array (some (array costs)) = true
is_array (some other) = false

pub assert_cost_list : {D : Type 0} → List (String × CostList D) → Supplier → Result (Unit {0})
unfolding refuse_if is_array
assert_cost_list lists supplier =
    refuse_if (not (is_array (lookup supplier.id lists))) invalid_supplier_cost_list

assert_supplier_cost_lists_are_arrays :
    {D : Type 0} → CostLists D → List Supplier → Result (Unit {0})
unfolding assert_cost_list
assert_supplier_cost_lists_are_arrays none suppliers = ok tt
assert_supplier_cost_lists_are_arrays (some lists) suppliers =
    for_each (assert_cost_list lists) suppliers

abbrev pub supplier_ids : List Supplier → List String
supplier_ids = map (λ s. s.id)

abbrev pub quoted_suppliers : {D : Type 0} → List (Quote D) → List String
quoted_suppliers = map (λ q. q.supplier_id)

is_empty : {D : Type 0} → List (RequirementItem D) → Bool
is_empty [] = true
is_empty (r ∷ rs) = false

module _ {D : Type 0} ⦃j : DecimalJs D⦄ where
  unfoldable pub validate_comparison_structure :
      Project D → ExchangeRateTable D → CostLists D → Result (Unit {0})
  unfolding refuse_if is_empty assert_unique_ids has_count_above_one count_quotes
      assert_supplier_cost_lists_are_arrays
  validate_comparison_structure project table costs = do
    refuse_if (not (str_eq project.base_currency table.base)) base_currency_mismatch
    refuse_if (is_empty project.requirements) empty_requirements
    assert_unique_ids (map (λ r. r.id) project.requirements) duplicate_requirement_id
    refuse_if (any (λ r. Quantity.is_zero r.required_quantity) project.requirements)
        zero_required_quantity
    assert_unique_ids (supplier_ids project.suppliers) duplicate_supplier_id
    refuse_if
        (any (λ id. not (contains id (supplier_ids project.suppliers)))
          (quoted_suppliers project.quotes))
        orphan_quote
    refuse_if (has_count_above_one (count_quotes [] (quoted_suppliers project.quotes)))
        duplicate_quote_for_supplier
    assert_supplier_cost_lists_are_arrays costs project.suppliers
