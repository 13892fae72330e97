-- ===== src/Prelude/Members.antt =====
-- The elements that a filter keeps.
use mathlib.Core.Logic.{inl, inr}
use mathlib.Core.Bool.{Bool, true}
use mathlib.Core.List.{List, [], ◌∷◌}
use landed_compare.Prelude.{filter, Bool-cases, In, ◌≡◌}

pub In-filter :
    {A : Type 0} (p : A → Bool) (xs : List A) (x : A) → In x (filter p xs) → In x xs × (p x ≡ true)
In-filter p [] x h = absurd (h tt)
In-filter p (y ∷ ys) x h = elim (Bool-cases (p y)) [
  | inl e ↦ elim (rw e at h) [
    | inl q ↦ (inl q, rw q e)
    | inr i ↦ let (k, f) = In-filter p ys x i in (inr k, f)
  ]
  | inr e ↦ let (k, f) = In-filter p ys x (rw e at h) in (inr k, f)
]
