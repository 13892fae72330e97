-- ===== src/Calculation/CurrencyMinorUnit.antt =====
-- `src/calculation/CurrencyMinorUnit.ts`: the scale that a currency is settled at.
use landed_compare.Prelude.{ℕ, String, Option, none, some, List, [], ◌∷◌, ltb}
use landed_compare.Prelude.Maps.{lookup}
use landed_compare.Errors.{
  Result, ok, err, ◌>>=◌, ◌>>◌, throw_if, precision_envelope_exceeded, invalid_minor_unit,
}
use landed_compare.Domain.DecimalJs.{DecimalJs}
use landed_compare.Domain.CurrencyCode.{parse_currency_code}
use landed_compare.Domain.Money.{Money, exceeds_settlement_precision}

abbrev pub max_minor_unit_digits : ℕ
max_minor_unit_digits = 30

abbrev pub built_in_minor_units : List (String × ℕ)
built_in_minor_units = ("TRY", 2) ∷ ("USD", 2) ∷ ("EUR", 2) ∷ []

module _ {D : Type 0} ⦃j : DecimalJs D⦄ where
  unfoldable pub assert_settleable_at_minor_unit : Money D → ℕ → Result (Unit {0})
  assert_settleable_at_minor_unit a minor_unit =
      throw_if (exceeds_settlement_precision a minor_unit) precision_envelope_exceeded

-- An override is a whole number that is not negative; only its upper bound is left to test.
unfoldable pub assert_valid_minor_unit : ℕ → Result (Unit {0})
assert_valid_minor_unit value = throw_if (ltb max_minor_unit_digits value) invalid_minor_unit

built_in : String → Result ℕ
built_in code = elim (lookup code built_in_minor_units) [
  | some n ↦ ok n
  | none ↦ err invalid_minor_unit
]

overridden : String → Option ℕ → Result ℕ
unfolding built_in assert_valid_minor_unit
overridden code none = built_in code
overridden code (some value) = assert_valid_minor_unit value >> ok value

unfoldable pub resolve_minor_unit : String → List (String × ℕ) → Result ℕ
unfolding overridden
resolve_minor_unit currency overrides = do
  code ← parse_currency_code currency
  overridden code (lookup code overrides)
