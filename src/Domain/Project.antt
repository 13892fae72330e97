-- ===== src/Domain/Project.antt =====
-- The input of a comparison: `src/domain/project/Project.ts`, `src/domain/requirement/RequirementItem.ts`,
-- `src/domain/supplier/Supplier.ts`, `src/domain/quote/Quote.ts` and `src/domain/quote/QuoteItem.ts`.
-- An omitted list of a create function is the empty list.
use landed_compare.Prelude.{String, not, Option, List, str_eq}
use landed_compare.Prelude.Text.{is_blank}
use landed_compare.Errors.{
  Result, ok, ◌>>=◌, ◌>>◌, throw_if, for_each, invalid_quote, invalid_quote_item,
  invalid_requirement_item, invalid_supplier, invalid_project,
}
use landed_compare.Domain.DecimalJs.{DecimalJs}
use landed_compare.Domain.CurrencyCode.{parse_currency_code}
use landed_compare.Domain.Money
use landed_compare.Domain.Money.{Money}
use landed_compare.Domain.Quantity
use landed_compare.Domain.Quantity.{Quantity}

pub record Supplier : Type 0 where
  pub id : String
  pub display_name : String

pub record RequirementItem (D : Type 0) : Type 0 where
  pub id : String
  pub product_name : String
  pub sku : Option String
  pub product_id : Option String
  pub required_quantity : Quantity D
  pub comparison_unit : String

pub record QuoteItem (D : Type 0) : Type 0 where
  pub id : String
  pub requirement_id : String
  pub quoted_unit_price : Money D
  pub quoted_unit : String
  pub units_per_quoted_unit : Option (Quantity D)
  pub moq : Option (Quantity D)

pub record Quote (D : Type 0) : Type 0 where
  pub id : String
  pub supplier_id : String
  pub currency : String
  pub quote_date : Option String
  pub incoterm : Option String
  pub payment_terms : Option String
  pub lead_time : Option String
  pub warranty : Option String
  pub notes : Option String
  pub items : List (QuoteItem D)

pub record Project (D : Type 0) : Type 0 where
  pub id : String
  pub name : String
  pub base_currency : String
  pub created_at : String
  pub updated_at : String
  pub requirements : List (RequirementItem D)
  pub suppliers : List Supplier
  pub quotes : List (Quote D)

pub record CreateRequirementItemInput : Type 0 where
  pub id : String
  pub product_name : String
  pub sku : Option String
  pub product_id : Option String
  pub required_quantity : String
  pub comparison_unit : String

unfoldable pub create_supplier : Supplier → Result Supplier
create_supplier input = do
  throw_if (is_blank input.id) invalid_supplier
  throw_if (is_blank input.display_name) invalid_supplier
  ok input

module _ {D : Type 0} ⦃j : DecimalJs D⦄ where
  unfoldable pub create_requirement_item : CreateRequirementItemInput → Result (RequirementItem D)
  create_requirement_item input = do
    throw_if (is_blank input.id) invalid_requirement_item
    throw_if (is_blank input.product_name) invalid_requirement_item
    throw_if (is_blank input.comparison_unit) invalid_requirement_item
    quantity ← Quantity.from_string input.required_quantity
    ok (record {
      id = input.id;
      product_name = input.product_name;
      sku = input.sku;
      product_id = input.product_id;
      required_quantity = quantity;
      comparison_unit = input.comparison_unit;
    })

  unfoldable pub create_quote_item : QuoteItem D → Result (QuoteItem D)
  create_quote_item input = do
    throw_if (is_blank input.id) invalid_quote_item
    throw_if (is_blank input.requirement_id) invalid_quote_item
    throw_if (is_blank input.quoted_unit) invalid_quote_item
    throw_if (Money.is_negative input.quoted_unit_price) invalid_quote_item
    ok input

  unfoldable pub priced_in : String → QuoteItem D → Result (Unit {0})
  priced_in currency item =
      throw_if (not (str_eq item.quoted_unit_price.currency currency)) invalid_quote

  unfoldable pub create_quote : Quote D → Result (Quote D)
  create_quote input = do
    throw_if (is_blank input.id) invalid_quote
    throw_if (is_blank input.supplier_id) invalid_quote
    currency ← parse_currency_code input.currency
    for_each (priced_in currency) input.items
    ok (record input { currency = currency })

  unfoldable pub create_project : Project D → Result (Project D)
  create_project input = do
    throw_if (is_blank input.id) invalid_project
    throw_if (is_blank input.name) invalid_project
    currency ← parse_currency_code input.base_currency
    ok (record input { base_currency = currency })
