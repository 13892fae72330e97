-- ===== src/Domain/Quantity.antt =====
-- `src/domain/quantity/Quantity.ts`: a non-negative exact decimal.
use landed_compare.Prelude.{String, Bool, Ordering, is_lt, is_eq, if◌then◌else◌}
use landed_compare.Errors.{Result, ok, ◌>>=◌, ◌>>◌, throw_if, invalid_quantity}
use landed_compare.Domain.DecimalJs.{DecimalJs}
use landed_compare.Domain.Decimal.{parse_exact_decimal, subtract_exact, multiply_exact, divide_ceil}

pub record Quantity (D : Type 0) : Type 0 where
  pub value : D

module _ {D : Type 0} ⦃j : DecimalJs D⦄ where
  unfoldable pub from_string : String → Result (Quantity D)
  from_string text = do
    value ← parse_exact_decimal text
    throw_if (j.is_negative value) invalid_quantity
    ok (record { value = value })

  unfoldable pub is_zero : Quantity D → Bool
  is_zero q = j.is_zero q.value

  unfoldable pub compare_to : Quantity D → Quantity D → Ordering
  compare_to a b = j.compared_to a.value b.value

  unfoldable pub equals : Quantity D → Quantity D → Bool
  equals a b = is_eq (j.compared_to a.value b.value)

  -- A tie is the first argument.
  unfoldable pub max : Quantity D → Quantity D → Quantity D
  unfolding compare_to
  max a b = if is_lt (compare_to a b) then b else a

  unfoldable pub multiply : Quantity D → Quantity D → Quantity D
  multiply a b = record { value = multiply_exact a.value b.value }

  unfoldable pub subtract : Quantity D → Quantity D → Result (Quantity D)
  subtract a b = do
    let result = subtract_exact a.value b.value
    throw_if (j.is_negative result) invalid_quantity
    ok (record { value = result })

  unfoldable pub ceil_divide : Quantity D → Quantity D → Result (Quantity D)
  unfolding is_zero
  ceil_divide a divisor = do
    throw_if (is_zero divisor) invalid_quantity
    ok (record { value = divide_ceil a.value divisor.value })

  unfoldable pub to_decimal_string : Quantity D → String
  to_decimal_string q = j.to_fixed q.value
