-- ===== src/Errors.antt =====
-- The error classes of the domain, calculation and comparison layers, and results that carry them.
-- A message names values for a person to read and is not modelled; the class is what callers test.
use landed_compare.Prelude.{
  Bool, true, false, List, [], ◌∷◌, ◌≡◌, refl, subst, ◌⊎◌, inl, inr, All, map,
}

-- What makes a whole comparison meaningless.
pub data StructuralIssue : Type 0 where
  empty_requirements duplicate_requirement_id zero_required_quantity : StructuralIssue
  duplicate_supplier_id orphan_quote duplicate_quote_for_supplier : StructuralIssue
  base_currency_mismatch invalid_supplier_cost_list : StructuralIssue

pub data Error : Type 0 where
  invalid_decimal invalid_currency_code currency_mismatch invalid_quantity : Error
  invalid_minor_unit precision_envelope_exceeded invalid_percentage : Error
  invalid_exchange_rate missing_exchange_rate : Error
  invalid_moq invalid_pack_size quantity_resolution_invariant : Error
  invalid_allocation_base incompatible_allocation_units : Error
  allocation_invariant allocation_capacity : Error
  invalid_cost_definition invalid_cost_amount invalid_percentage_base invalid_discount : Error
  settlement_reconciliation discount_allocation_validation ranking_invariant : Error
  invalid_quote invalid_quote_item invalid_requirement_item invalid_supplier invalid_project : Error
  invalid_comparison_input : StructuralIssue → Error
  -- A plain `Error`, and a `TypeError` of the language.
  internal_error type_error : Error

-- What a call that may throw comes to.
pub data Result {ℓ} (Value : Type ℓ) : Type ℓ where
  err : Error → Result Value
  ok : Value → Result Value

module _ {ℓ κ} {A : Type ℓ} {B : Type κ} where
  infixl 5 ◌>>=◌
  -- What follows a call, unless it has thrown.
  abbrev pub ◌>>=◌ : Result A → (A → Result B) → Result B
  err thrown >>= next = err thrown
  ok value >>= next = next value

-- What a call returns, if it returns, has a property.
abbrev pub Yields {ℓ κ} : {A : Type ℓ} → (A → Type κ) → Result A → Type κ
Yields P (err thrown) = Unit
Yields P (ok value) = P value

pub yielded {ℓ κ} :
    {A : Type ℓ} (P : A → Type κ) {r : Result A} {a : A} → Yields P r → r ≡ ok a → P a
yielded P {r} {a} y e = subst (Yields P) e y

pub last-Yields {ℓ κ} :
    {A : Type ℓ} (P : A → Type κ) (last : Result A) → ((a : A) → last ≡ ok a → P a) → Yields P last
last-Yields P (err thrown) h = tt
last-Yields P (ok value) h = h value refl

-- A sequence of calls, by what the first one returned.
pub then-Yields {ℓ κ μ} :
    {A : Type ℓ} {B : Type κ} (P : B → Type μ) (first : Result A) (next : A → Result B)
    → ((a : A) → first ≡ ok a → Yields P (next a))
    → Yields P (first >>= next)
then-Yields P (err thrown) next h = tt
then-Yields P (ok value) next h = h value refl

module _ {κ} {B : Type κ} where
  infixl 5 ◌>>◌
  -- The same after a call for its effect alone.
  abbrev pub ◌>>◌ : Result (Unit {0}) → Result B → Result B
  check >> next = check >>= λ done. next

pub Result-cases {ℓ} :
    {A : Type ℓ} (r : Result A) → ((e : Error) × (r ≡ err e)) ⊎ ((a : A) × (r ≡ ok a))
Result-cases (err e) = inl (e, refl)
Result-cases (ok a) = inr (a, refl)

pub ok_same {ℓ} : {A : Type ℓ} {a b : A} → ◌≡◌ {A = Result A} (ok a) (ok b) → a ≡ b
ok_same h = cc

-- `if (failed) throw e`
abbrev pub throw_if : Bool → Error → Result (Unit {0})
throw_if true e = err e
throw_if false e = ok tt

-- A check that passes has not found what it refuses.
pub throw_if-passed : (b : Bool) (e : Error) → throw_if b e ≡ ok tt → b ≡ false
throw_if-passed true e h = absurd (cc)
throw_if-passed false e h = refl

-- A throwing callback over an array, from the front: `Array.map`, `for … of`, `Array.reduce`.
module _ {ℓ κ} {A : Type ℓ} {B : Type κ} where
  abbrev pub traverse : (A → Result B) → List A → Result (List B)
  traverse f [] = ok []
  traverse f (x ∷ xs) = f x >>= λ y. traverse f xs >>= λ ys. ok (y ∷ ys)

  abbrev pub reduce : (B → A → Result B) → B → List A → Result B
  reduce f b [] = ok b
  reduce f b (x ∷ xs) = f b x >>= λ c. reduce f c xs

abbrev pub for_each {ℓ} : {A : Type ℓ} → (A → Result (Unit {0})) → List A → Result (Unit {0})
for_each f [] = ok tt
for_each f (x ∷ xs) = f x >> for_each f xs

-- What a throwing callback returns for every element.
module _ {ℓ κ μ} {A : Type ℓ} {B : Type κ} (f : A → Result B) where
  pub traverse-map :
      {C : Type μ} (g : B → C) (h : A → C)
      → ((x : A) (y : B) → f x ≡ ok y → g y ≡ h x)
      → (xs : List A) → Yields (λ ys. map g ys ≡ map h xs) (traverse f xs)
  traverse-map g h e [] = refl
  traverse-map g h e (x ∷ xs) =
      let P = λ (ys : List B). map g ys ≡ map h (x ∷ xs) in
      then-Yields P (f x) _ λ y q. then-Yields P (traverse f xs) _ λ ys r.
        let rest = yielded (λ zs. map g zs ≡ map h xs) (traverse-map g h e xs) r in
        rw (e x y q, rest) refl

  pub traverse-All :
      (P : B → Type μ)
      → ((x : A) (y : B) → f x ≡ ok y → P y)
      → (xs : List A) → Yields (All P) (traverse f xs)
  traverse-All P e [] = tt
  traverse-All P e (x ∷ xs) = then-Yields (All P) (f x) _ λ y q.
      then-Yields (All P) (traverse f xs) _
        λ ys r. (e x y q, yielded (All P) (traverse-All P e xs) r)
