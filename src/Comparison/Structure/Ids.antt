-- ===== src/Comparison/Structure/Ids.antt =====
-- Checks in sequence, and ids that are distinct.
use landed_compare.Prelude.{
  ◌≡◌, ◌↔◌, ◌≢◌, refl, sym, String, Bool, true, false, List, [], ◌∷◌, any, eq_iff, All, arith,
}
use landed_compare.Prelude.Maps.{contains}
use landed_compare.Errors.{StructuralIssue, Result, ok, err, ◌>>◌, for_each}
use landed_compare.Comparison.Structure.{refuse_if, unique_after}

-- No id stands twice in a list.
abbrev pub Distinct : List String → Type 0
Distinct [] = Unit
Distinct (id ∷ ids) = All (λ other. other ≢ id) ids × Distinct ids

-- A sequence of checks passes exactly when each check does.
pub then_iff : (a b : Result (Unit {0})) → ((a >> b) ≡ ok tt) ↔ ((a ≡ ok tt) × (b ≡ ok tt))
then_iff (ok tt) b = (λ h. (refl, h), λ (_, h). h)
then_iff (err e) b = (λ h. absurd (cc), λ (h, _). absurd (cc))

pub refuse_iff : (b : Bool) (i : StructuralIssue) → (refuse_if b i ≡ ok tt) ↔ (b ≡ false)
unfolding refuse_if
refuse_iff true i = (λ h. absurd (cc), λ h. absurd (cc))
refuse_iff false i = (λ h. refl, λ h. refl)

module _ {ℓ} {A : Type ℓ} where
  pub any_iff : (p : A → Bool) (xs : List A) → (any p xs ≡ false) ↔ All (λ x. p x ≡ false) xs
  any_iff p [] = (λ h. tt, λ h. refl)
  any_iff p (x ∷ xs) = (
    λ h. (ground arith, (any_iff p xs).0 (ground arith)),
    λ (e, es). ground (arith, (any_iff p xs).1 es),
  )

  pub for_each_iff :
      (f : A → Result (Unit {0})) (xs : List A)
      → (for_each f xs ≡ ok tt) ↔ All (λ x. f x ≡ ok tt) xs
  for_each_iff f [] = (λ h. tt, λ h. refl)
  for_each_iff f (x ∷ xs) =
      let both = then_iff (f x) (for_each f xs) in
      let rest = for_each_iff f xs in
      (λ h. ((both.0 h).0, rest.0 ((both.0 h).1)), λ h. both.1 (h.0, rest.1 (h.1)))

  pub All-iff : (P Q : A → Type 0) → ((x : A) → P x ↔ Q x) → (xs : List A) → All P xs ↔ All Q xs
  All-iff P Q h [] = (λ u. u, λ u. u)
  All-iff P Q h (x ∷ xs) =
      let rest = All-iff P Q h xs in
      (λ (p, ps). ((h x).0 p, rest.0 ps), λ (q, qs). ((h x).1 q, rest.1 qs))

  pub All-both_iff :
      (R P Q : A → Type 0)
      → ((x : A) → R x ↔ (P x × Q x))
      → (xs : List A) → All R xs ↔ (All P xs × All Q xs)
  All-both_iff R P Q h [] = (λ u. (tt, tt), λ u. tt)
  All-both_iff R P Q h (x ∷ xs) =
      let rest = All-both_iff R P Q h xs in
      (
        λ (r, rs). ((((h x).0 r).0, (rest.0 rs).0), (((h x).0 r).1, (rest.0 rs).1)),
        λ ((p, ps), (q, qs)). ((h x).1 (p, q), rest.1 (ps, qs)),
      )

pub All-of : {P : String → Type 0} (ids : List String) → ((id : String) → P id) → All P ids
All-of [] h = tt
All-of (id ∷ ids) h = (h id, All-of ids h)

pub seen_iff :
    (id : String) (seen : List String) (other : String)
    → (contains other (id ∷ seen) ≡ false) ↔ ((contains other seen ≡ false) × (other ≢ id))
seen_iff id seen other = (
  λ h. (ground arith, λ e. ground (arith, eq_iff id other, sym e)),
  λ (h, n). ground (arith, eq_iff id other, h, λ (e : id ≡ other). n (sym e)),
)

-- The loop over the ids passes exactly when they are distinct and none was seen before.
pub unique_after_iff :
    (i : StructuralIssue) (seen ids : List String)
    → (unique_after i seen ids ≡ ok tt) ↔ (All (λ id. contains id seen ≡ false) ids × Distinct ids)
unfolding unique_after
unique_after_iff i seen [] = (λ h. (tt, tt), λ h. refl)
unique_after_iff i seen (id ∷ ids) =
    let both = then_iff (refuse_if (contains id seen) i) (unique_after i (id ∷ seen) ids) in
    let head = refuse_iff (contains id seen) i in
    let rest = unique_after_iff i (id ∷ seen) ids in
    let split =
      All-both_iff (λ o. contains o (id ∷ seen) ≡ false) (λ o. contains o seen ≡ false)
        (λ o. o ≢ id) (seen_iff id seen) ids in
    (
      λ h.
          let (new, distinct) = rest.0 ((both.0 h).1) in
          let (unseen, others) = split.0 new in
          ((head.0 ((both.0 h).0), unseen), (others, distinct)),
      λ ((new, unseen), (others, distinct)).
          both.1 (head.1 new, rest.1 (split.1 (unseen, others), distinct)),
    )
