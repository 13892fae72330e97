-- ===== src/Domain/CurrencyCode.antt =====
-- `src/domain/monetary/CurrencyCode.ts`: three upper-case letters.
use landed_compare.Prelude.{ℕ, Bool, false, ◌&&◌, List, [], ◌∷◌, String, if◌then◌else◌}
use landed_compare.Prelude.Text.{code_points, between}
use landed_compare.Errors.{Result, ok, err, invalid_currency_code}

-- `/^[A-Z]{3}$/`
abbrev three_capitals : List ℕ → Bool
three_capitals (a ∷ b ∷ c ∷ []) = between b'A' b'Z' a && between b'A' b'Z' b && between b'A' b'Z' c
three_capitals _ = false

unfoldable pub is_valid_currency_code : String → Bool
is_valid_currency_code value = three_capitals (code_points value)

unfoldable pub parse_currency_code : String → Result String
unfolding is_valid_currency_code
parse_currency_code value =
    if is_valid_currency_code value then ok value else err invalid_currency_code
