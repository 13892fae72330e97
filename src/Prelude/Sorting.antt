-- ===== src/Prelude/Sorting.antt =====
-- `Array.prototype.sort`: a stable sort by a three-way comparison.
use Prim.Native.Nat.{ℕ, Ordering, ◌≤◌}
use mathlib.Core.Path.{◌≡◌}
use mathlib.Core.Bool.{true, false}
use mathlib.Core.Logic.{inl, inr}
use mathlib.Core.List.{List, [], ◌∷◌, Perm}
use mathlib.Core.List.Perm
use native.Mathlib.Omega.{arith}
use landed_compare.Prelude.Tests.{if◌then◌else◌, is_gt, Bool-cases}
use landed_compare.Prelude.Lists.{All}

module _ {ℓ} {A : Type ℓ} (cmp : A → A → Ordering) where
  -- Before the first element that does not precede it.
  abbrev pub insert_by : A → List A → List A
  insert_by x [] = x ∷ []
  insert_by x (y ∷ ys) =
      let rest = insert_by x ys in if is_gt (cmp x y) then y ∷ rest else x ∷ y ∷ ys

  abbrev pub sort_by : List A → List A
  sort_by [] = []
  sort_by (x ∷ xs) = insert_by x (sort_by xs)

  insert_by-perm : (x : A) (ys : List A) → Perm (insert_by x ys) (x ∷ ys)
  insert_by-perm x [] = Perm.refl _
  insert_by-perm x (y ∷ ys) = elim (Bool-cases (is_gt (cmp x y))) [
    | inl e ↦ rw e (Perm.trans (Perm.cons y (insert_by-perm x ys)) (Perm.swap x y ys))
    | inr e ↦ rw e (Perm.refl _)
  ]

  -- Sorting keeps the elements.
  pub sort_by-perm : (xs : List A) → Perm (sort_by xs) xs
  sort_by-perm [] = Perm.refl _
  sort_by-perm (x ∷ xs) = Perm.trans (insert_by-perm x (sort_by xs)) (Perm.cons x (sort_by-perm xs))

  module _ {κ} (P : A → Type κ) where
    insert_by-All : (x : A) (ys : List A) → P x → All P ys → All P (insert_by x ys)
    insert_by-All x [] p h = (p, tt)
    insert_by-All x (y ∷ ys) p (q, h) = elim (Bool-cases (is_gt (cmp x y))) [
      | inl e ↦ rw e (q, insert_by-All x ys p h)
      | inr e ↦ rw e (p, (q, h))
    ]

    pub sort_by-All : (xs : List A) → All P xs → All P (sort_by xs)
    sort_by-All [] h = tt
    sort_by-All (x ∷ xs) (p, h) = insert_by-All x (sort_by xs) p (sort_by-All xs h)

-- Every element precedes those behind it, in the order of a number that each has.
abbrev pub Ascending {ℓ} : {A : Type ℓ} → (A → ℕ) → List A → Type 0
Ascending value [] = Unit
Ascending value (x ∷ xs) = All (λ y. value x ≤ value y) xs × Ascending value xs

module _ {ℓ κ} {A : Type ℓ} (cmp : A → A → Ordering) (P : A → Type κ) (value : A → ℕ)
    (above : (x y : A) → P x → P y → is_gt (cmp x y) ≡ true → value y ≤ value x)
    (below : (x y : A) → P x → P y → is_gt (cmp x y) ≡ false → value x ≤ value y) where
  All-le_trans :
      (a b : ℕ) (ys : List A) → a ≤ b → All (λ y. b ≤ value y) ys → All (λ y. a ≤ value y) ys
  All-le_trans a b [] h k = tt
  All-le_trans a b (y ∷ ys) h (p, k) = (omega arith, All-le_trans a b ys h k)

  insert_by-Ascending :
      (x : A) (ys : List A)
      → P x
      → All P ys
      → Ascending value ys
      → Ascending value (insert_by cmp x ys)
  insert_by-Ascending x [] p h s = (tt, tt)
  insert_by-Ascending x (y ∷ ys) p (q, h) (first, s) = elim (Bool-cases (is_gt (cmp x y))) [
    | inl e ↦ rw e (
      insert_by-All cmp (λ z. value y ≤ value z) x ys (above x y p q e) first,
      insert_by-Ascending x ys p h s,
    )
    | inr e ↦
        rw e (
          (below x y p q e, All-le_trans (value x) (value y) ys (below x y p q e) first),
          (first, s),
        )
  ]

  -- Sorting by a comparison that agrees with a number puts the numbers in ascending order.
  pub sort_by-Ascending : (xs : List A) → All P xs → Ascending value (sort_by cmp xs)
  sort_by-Ascending [] h = tt
  sort_by-Ascending (x ∷ xs) (p, h) =
      insert_by-Ascending x (sort_by cmp xs) p (sort_by-All cmp P xs h) (sort_by-Ascending xs h)
