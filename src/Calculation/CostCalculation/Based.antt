-- ===== src/Calculation/CostCalculation/Based.antt =====
-- The calls of a calculation that do not throw for want of a percentage base.
use landed_compare.Prelude.{
  String, Bool, true, false, List, [], ◌∷◌, ◌≢◌, All, Bool-cases, Option-cases, inl, inr, str_eq,
}
use landed_compare.Prelude.Maps.{lookup}
use landed_compare.Prelude.Text.{is_blank}
use landed_compare.Errors.{
  Error, Result, ok, err, ◌>>=◌, throw_if, traverse, reduce, invalid_percentage_base,
}
use landed_compare.Domain.DecimalJs.{DecimalJs}
use landed_compare.Domain.Decimal.{parse_exact_decimal}
use landed_compare.Domain.CurrencyCode.{parse_currency_code, is_valid_currency_code}
use landed_compare.Domain.Money
use landed_compare.Domain.Money.{Money}
use landed_compare.Calculation.ExchangeRate.{ExchangeRateTable, get_rate, convert_to_base_currency}
use landed_compare.Calculation.CostCalculation.Entries.{EvaluatedEntry, sum_magnitudes}

-- A call that does not throw for want of a percentage base.
abbrev pub Based : {A : Type 0} → Result A → Type 0
Based (err e) = e ≢ invalid_percentage_base
Based (ok a) = Unit

pub then-Based :
    {A B : Type 0} (r : Result A) (next : A → Result B)
    → Based r
    → ((a : A) → Based (next a))
    → Based (r >>= next)
then-Based (err e) next h k = h
then-Based (ok a) next h k = k a

pub throw_if-Based : (b : Bool) (e : Error) → e ≢ invalid_percentage_base → Based (throw_if b e)
throw_if-Based true e h = h
throw_if-Based false e h = tt

pub traverse-Based :
    {A B : Type 0} (f : A → Result B) (xs : List A)
    → All (λ x. Based (f x)) xs
    → Based (traverse f xs)
traverse-Based f [] h = tt
traverse-Based f (x ∷ xs) (h, hs) =
    then-Based (f x) _ h λ y. then-Based (traverse f xs) _ (traverse-Based f xs hs) λ ys. tt

reduce-Based :
    {A B : Type 0} (f : B → A → Result B) (b : B) (xs : List A)
    → ((c : B) (x : A) → Based (f c x))
    → Based (reduce f b xs)
reduce-Based f b [] h = tt
reduce-Based f b (x ∷ xs) h = then-Based (f b x) _ (h b x) λ c. reduce-Based f c xs h

parse_currency_code-Based : (text : String) → Based (parse_currency_code text)
unfolding parse_currency_code
parse_currency_code-Based text = elim (Bool-cases (is_valid_currency_code text)) [
  | inl e ↦ rw e tt
  | inr e ↦ rw e (λ q. cc)
]

module _ (D : Type 0) ⦃j : DecimalJs D⦄ where
  parse_exact_decimal-Based : (text : String) → Based {A = D} (parse_exact_decimal text)
  unfolding parse_exact_decimal
  parse_exact_decimal-Based text = elim (Bool-cases (is_blank text)) [
    | inl e ↦ rw e (λ q. cc)
    | inr e ↦ elim (Option-cases (j.of_text text)) [
      | inl f ↦ rw (e, f) (λ q. cc)
      | inr (d, f) ↦ elim (Bool-cases (j.is_finite d)) [
        | inl g ↦ rw (e, f, g) tt
        | inr g ↦ rw (e, f, g) (λ q. cc)
      ]
    ]
  ]

  from_string-Based : (amount currency : String) → Based (Money.from_string {D = D} amount currency)
  unfolding Money.from_string
  from_string-Based amount currency =
      then-Based (parse_exact_decimal amount) _ (parse_exact_decimal-Based amount) λ value.
        then-Based (parse_currency_code currency) _ (parse_currency_code-Based currency) λ code. tt

  pub zero-Based : (currency : String) → Based (Money.zero {D = D} currency)
  unfolding Money.zero
  zero-Based currency = from_string-Based "0" currency

module _ {D : Type 0} ⦃j : DecimalJs D⦄ where
  same_currency-Based : (a b : Money D) → Based (Money.assert_same_currency a b)
  unfolding Money.assert_same_currency
  same_currency-Based a b = throw_if-Based _ _ (λ q. cc)

  pub add-Based : (a b : Money D) → Based (Money.add a b)
  unfolding Money.add Money.assert_same_currency
  add-Based a b = then-Based (Money.assert_same_currency a b) _ (same_currency-Based a b) λ u. tt

  pub subtract-Based : (a b : Money D) → Based (Money.subtract a b)
  unfolding Money.subtract Money.assert_same_currency
  subtract-Based a b =
      then-Based (Money.assert_same_currency a b) _ (same_currency-Based a b) λ u. tt

  pub is_greater_than-Based : (a b : Money D) → Based (Money.is_greater_than a b)
  unfolding Money.is_greater_than Money.compare_to Money.assert_same_currency
  is_greater_than-Based a b =
      then-Based (Money.compare_to a b) _
        (then-Based (Money.assert_same_currency a b) _ (same_currency-Based a b) λ u. tt) λ o. tt

  pub multiply-Based : (a : Money D) (factor : String) → Based (Money.multiply a factor)
  unfolding Money.multiply
  multiply-Based a factor =
      then-Based (parse_exact_decimal factor) _ (parse_exact_decimal-Based D factor) λ f. tt

  get_rate-Based : (table : ExchangeRateTable D) (from : String) → Based (get_rate table from)
  unfolding get_rate
  get_rate-Based table from =
      then-Based (parse_currency_code from) _ (parse_currency_code-Based from) λ code.
        elim (Option-cases (lookup code table.rates)) [
          | inl e ↦ rw e (λ q. cc)
          | inr (rate, e) ↦ rw e tt
        ]

  pub convert-Based :
      (a : Money D) (table : ExchangeRateTable D) → Based (convert_to_base_currency a table)
  unfolding convert_to_base_currency
  convert-Based a table = elim (Bool-cases (str_eq a.currency table.base)) [
    | inl e ↦ rw e tt
    | inr e ↦ rw e (
        then-Based (get_rate table a.currency) _ (get_rate-Based table a.currency) λ rate.
          then-Based (parse_exact_decimal (Money.to_decimal_string a)) _
            (parse_exact_decimal-Based D _)
            λ amount.
              then-Based (parse_exact_decimal (j.to_fixed rate.rate)) _
                (parse_exact_decimal-Based D _) λ factor. from_string-Based D _ _)
  ]

  pub sum_magnitudes-Based :
      (entries : List (EvaluatedEntry D)) (zero : Money D) (selects : EvaluatedEntry D → Bool)
      → Based (sum_magnitudes entries zero selects)
  unfolding sum_magnitudes
  sum_magnitudes-Based entries zero selects = reduce-Based _ zero entries λ total entry.
      elim (Bool-cases (selects entry)) [
        | inl e ↦ rw e (add-Based total entry.base_currency_amount)
        | inr e ↦ rw e tt
      ]
