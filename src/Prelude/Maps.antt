-- ===== src/Prelude/Maps.antt =====
-- `Map` with text keys, in order of insertion, and sets of texts.
use Prim.Native.String.{String}
use text.Mathlib.Text.{◌==◌ as str_eq}
use text.Mathlib.TextEquality.{eq_iff}
use mathlib.Core.Path.{◌≡◌, refl, sym, ◌∙◌}
use mathlib.Core.Logic.{◌↔◌, inl, inr}
use mathlib.Core.Bool.{Bool, false, ◌||◌}
use mathlib.Core.List.{List, [], ◌∷◌, map}
use mathlib.Core.Option.{Option, none, some}
use native.Mathlib.Omega.{arith}
use landed_compare.Prelude.Tests.{if◌then◌else◌, Bool-cases}

-- `set.has(k)`
abbrev pub contains : String → List String → Bool
contains k [] = false
contains k (x ∷ xs) = str_eq x k || contains k xs

module _ {ℓ} {V : Type ℓ} where
  -- `map.get(k)`
  unfoldable pub lookup : String → List (String × V) → Option V
  lookup k [] = none
  lookup k ((i, v) ∷ m) = if str_eq i k then some v else lookup k m

  -- `map.set(k, v)`
  unfoldable pub insert : String → V → List (String × V) → List (String × V)
  insert k v [] = (k, v) ∷ []
  insert k v ((i, w) ∷ m) = if str_eq i k then (k, v) ∷ m else (i, w) ∷ insert k v m

  -- `new Map(entries)`, onto a map: a later entry of a key replaces an earlier one.
  unfoldable pub insert_all : List (String × V) → List (String × V) → List (String × V)
  insert_all [] m = m
  insert_all ((k, v) ∷ entries) m = insert_all entries (insert k v m)

  pub lookup-insert :
      (k i : String) (v : V) (m : List (String × V))
      → lookup i (insert k v m) ≡ (if str_eq k i then some v else lookup i m)
  unfolding lookup insert
  lookup-insert k i v [] = refl
  lookup-insert k i v ((n, w) ∷ m) =
      ground (arith, eq_iff k i, eq_iff n k, eq_iff n i, lookup-insert k i v m)

-- A map made of entries has the keys of the entries, besides those it started with.
pub lookup-insert_all {ℓ} :
    {A : Type ℓ} (key : A → String) (k : String) (xs : List A) (m : List (String × A))
    → (lookup k (insert_all (map (λ x. (key x, x)) xs) m) ≡ none)
      ↔ ((contains k (map key xs) ≡ false) × (lookup k m ≡ none))
unfolding insert_all
lookup-insert_all key k [] m = (λ h. (refl, h), λ h. h.1)
lookup-insert_all key k (x ∷ xs) m =
    let rest = lookup-insert_all key k xs (insert (key x) x m) in
    let here = lookup-insert (key x) k x m in
    elim (Bool-cases (str_eq (key x) k)) [
      | inl e ↦
          (λ h. absurd (ground (arith, here, e, rest.0 h)), λ (h, _). absurd (ground (arith, e, h)))
      | inr e ↦
          let same : lookup k (insert (key x) x m) ≡ lookup k m = ground (arith, here, e) in
          (
            λ h. (ground (arith, e, (rest.0 h).0), sym same ∙ (rest.0 h).1),
            λ (h, n). rest.1 (ground (arith, e, h), same ∙ n),
          )
    ]
