-- ===== src/Calculation/QuantityResolution.antt =====
-- `src/calculation/QuantityResolution.ts`: minimum order quantities and whole packs.
use landed_compare.Prelude.{Bool, true, false, Option, none, some, is_gt, is_lt}
use landed_compare.Errors.{
  Result, ok, ◌>>=◌, ◌>>◌, throw_if, invalid_moq, invalid_pack_size, quantity_resolution_invariant,
}
use landed_compare.Domain.DecimalJs.{DecimalJs}
use landed_compare.Domain.Quantity
use landed_compare.Domain.Quantity.{Quantity}

pub record ResolutionInput (D : Type 0) : Type 0 where
  pub required_quantity : Quantity D
  pub moq : Option (Quantity D)
  pub units_per_quoted_unit : Option (Quantity D)

pub record Resolution (D : Type 0) : Type 0 where
  pub required_quantity : Quantity D
  pub moq : Option (Quantity D)
  pub moq_applied : Bool
  pub units_per_quoted_unit : Option (Quantity D)
  pub pack_applied : Bool
  pub resolved_quantity : Quantity D
  pub quoted_unit_quantity : Quantity D
  pub excess_quantity : Quantity D

module _ {D : Type 0} ⦃j : DecimalJs D⦄ where
  -- `q !== undefined && q.isZero()`
  given_zero : Option (Quantity D) → Bool
  given_zero none = false
  given_zero (some q) = Quantity.is_zero q

  exceeds_required : Option (Quantity D) → Quantity D → Bool
  exceeds_required none required = false
  exceeds_required (some moq) required = is_gt (Quantity.compare_to moq required)

  minimum_of : Quantity D → Option (Quantity D) → Quantity D
  minimum_of required none = required
  minimum_of required (some moq) = Quantity.max required moq

  is_given : Option (Quantity D) → Bool
  is_given none = false
  is_given (some q) = true

  -- The quoted units, and the quantity that they make up.
  pack : Quantity D → Option (Quantity D) → Result (Quantity D × Quantity D)
  pack minimum none = ok (minimum, minimum)
  pack minimum (some units) = do
    quoted ← Quantity.ceil_divide minimum units
    ok (quoted, Quantity.multiply quoted units)

  unfoldable pub resolve_order_quantity : ResolutionInput D → Result (Resolution D)
  unfolding given_zero exceeds_required minimum_of is_given pack
  resolve_order_quantity input = do
    throw_if (given_zero input.moq) invalid_moq
    throw_if (given_zero input.units_per_quoted_unit) invalid_pack_size
    let minimum = minimum_of input.required_quantity input.moq
    packed ← pack minimum input.units_per_quoted_unit
    throw_if (is_lt (Quantity.compare_to packed.1 minimum)) quantity_resolution_invariant
    excess ← Quantity.subtract packed.1 input.required_quantity
    ok (record {
      required_quantity = input.required_quantity;
      moq = input.moq;
      moq_applied = exceeds_required input.moq input.required_quantity;
      units_per_quoted_unit = input.units_per_quoted_unit;
      pack_applied = is_given input.units_per_quoted_unit;
      resolved_quantity = packed.1;
      quoted_unit_quantity = packed.0;
      excess_quantity = excess;
    })
