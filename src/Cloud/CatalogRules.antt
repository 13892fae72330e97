-- ===== src/Cloud/CatalogRules.antt =====
-- The decimals and trimmed texts of `src/cloud/catalogRules.ts`, which mirror the rules of the server. A
-- text is the list of its code points.
pub mod Laws
pub mod Values
use landed_compare.Prelude.{
  ℕ, Bool, true, false, not, ◌&&◌, ◌||◌, Option, none, some, List, [], ◌∷◌, ◌++◌, ◌==◌,
  if◌then◌else◌, any, length,
}
use landed_compare.Prelude.Text.{between}

abbrev pub Text : Type 0
Text = List ℕ

abbrev pub is_digit : ℕ → Bool
is_digit c = between b'0' b'9' c

-- The digits in front, and what follows them.
unfoldable pub digits : Text → Text × Text
digits [] = ([], [])
digits (c ∷ cs) = let (ds, rest) = digits cs in if is_digit c then (c ∷ ds, rest) else ([], c ∷ cs)

-- A match of `DECIMAL_TEXT`: the sign, the integer part, and the fraction or nothing.
pub record DecimalMatch : Type 0 where
  pub negative : Bool
  pub integer : Text
  pub fraction : Text

-- `(?:\.(\d+))?$`
with_fraction : Bool → Text → Text × Text → Option DecimalMatch
with_fraction negative integer (d ∷ ds, []) =
    some (record { negative = negative; integer = integer; fraction = d ∷ ds })
with_fraction negative integer _ = none

unfoldable pub after_integer : Bool → Text × Text → Option DecimalMatch
unfolding with_fraction
after_integer negative ([], rest) = none
after_integer negative (d ∷ ds, []) =
    some (record { negative = negative; integer = d ∷ ds; fraction = [] })
after_integer negative (d ∷ ds, c ∷ cs) =
    if c == b'.' then with_fraction negative (d ∷ ds) (digits cs) else none

-- `DECIMAL_TEXT.exec(value)`; a fraction that is absent is empty.
unfoldable pub exec_decimal : Text → Option DecimalMatch
exec_decimal [] = none
exec_decimal (c ∷ cs) =
    if c == b'-' then after_integer true (digits cs) else after_integer false (digits (c ∷ cs))

-- `replace(/^0+(?=\d)/, '')`
unfoldable pub strip_leading : Text → Text
strip_leading [] = []
strip_leading (c ∷ []) = c ∷ []
strip_leading (c ∷ d ∷ ds) =
    let rest = strip_leading (d ∷ ds) in if c == b'0' then rest else c ∷ d ∷ ds

zero_dropped : ℕ → Text → Text
zero_dropped c [] = if c == b'0' then [] else c ∷ []
zero_dropped c (d ∷ ds) = c ∷ d ∷ ds

-- `replace(/0+$/, '')`
unfoldable pub strip_trailing : Text → Text
unfolding zero_dropped
strip_trailing [] = []
strip_trailing (c ∷ cs) = zero_dropped c (strip_trailing cs)

unfoldable pub is_zero_text : Text → Bool
is_zero_text (c ∷ []) = c == b'0'
is_zero_text _ = false

unfoldable pub is_empty : Text → Bool
is_empty [] = true
is_empty (c ∷ cs) = false

unfoldable pub signed : Bool → Text → Text
signed true text = b'-' ∷ text
signed false text = text

unfoldable pub joined : Text → Text → Text
joined integer [] = integer
joined integer (d ∷ ds) = integer ++ (b'.' ∷ (d ∷ ds))

-- The text of the stripped parts.
unfoldable pub written : Bool → Text → Text → Text
unfolding is_zero_text is_empty signed joined
written negative integer fraction =
    signed (negative && not (is_zero_text integer && is_empty fraction)) (joined integer fraction)

unfoldable pub canonical_of : DecimalMatch → Text
canonical_of m = written m.negative (strip_leading m.integer) (strip_trailing m.fraction)

unfoldable pub canonical_decimal : Text → Option Text
canonical_decimal value = elim (exec_decimal value) [ none ↦ none | some m ↦ some (canonical_of m) ]

-- `/^(0|[1-9][0-9]*)(\.[0-9]+)?$/.test(value) && /[1-9]/.test(value)`
no_extra_zero : Text → Bool
no_extra_zero (c ∷ d ∷ ds) = not (c == b'0')
no_extra_zero _ = true

starts_signed : Text → Bool
starts_signed [] = false
starts_signed (c ∷ cs) = c == b'-'

unfoldable pub is_canonical_positive_decimal : Text → Bool
unfolding no_extra_zero starts_signed
is_canonical_positive_decimal value = elim (exec_decimal value) [
  | none ↦ false
  | some m ↦ not (starts_signed value) && no_extra_zero m.integer && any (between b'1' b'9') value
]

same_text : Text → Text → Bool
same_text [] [] = true
same_text (c ∷ cs) (d ∷ ds) = c == d && same_text cs ds
same_text _ _ = false

same_canonical : Option Text → Option Text → Bool
unfolding same_text
same_canonical (some a) (some b) = same_text a b
same_canonical _ _ = false

unfoldable pub same_exact_decimal : Option Text → Option Text → Bool
unfolding same_canonical
same_exact_decimal none none = true
same_exact_decimal (some a) (some b) = same_canonical (canonical_decimal a) (canonical_decimal b)
same_exact_decimal _ _ = false

-- `length()` of the server: the characters.
unfoldable pub code_point_length : Text → ℕ
code_point_length = length

trim_start : Text → Text
trim_start [] = []
trim_start (c ∷ cs) = let rest = trim_start cs in if c == b' ' then rest else c ∷ cs

space_dropped : ℕ → Text → Text
space_dropped c [] = if c == b' ' then [] else c ∷ []
space_dropped c (d ∷ ds) = c ∷ d ∷ ds

trim_end : Text → Text
unfolding space_dropped
trim_end [] = []
trim_end (c ∷ cs) = space_dropped c (trim_end cs)

unfoldable pub server_trim : Text → Text
unfolding trim_start trim_end
server_trim value = trim_end (trim_start value)

nonempty : Text → Option Text
nonempty [] = none
nonempty (c ∷ cs) = some (c ∷ cs)

unfoldable pub server_optional : Option Text → Option Text
unfolding nonempty
server_optional none = none
server_optional (some value) = nonempty (server_trim value)
