-- ===== src/Comparison/Structure/Counts.antt =====
-- The count of the quotes of each supplier.
use landed_compare.Prelude.{
  ℕ, suc, ◌≤◌, ◌≡◌, ◌↔◌, ◌≢◌, sym, String, true, false, List, [], ◌∷◌, ltb, eq_iff, All, Bool-cases,
  inl, inr, arith,
}
use landed_compare.Prelude.Maps.{lookup, insert, lookup-insert}
use landed_compare.Comparison.Structure.{count_of, count_quotes, has_count_above_one}
use landed_compare.Comparison.Structure.Ids.{Distinct, All-both_iff}

count_of-insert :
    (id : String) (n : ℕ) (counts : List (String × ℕ)) (other : String)
    → (count_of other (insert id (suc n) counts) ≡ 0) ↔ ((count_of other counts ≡ 0) × (other ≢ id))
unfolding count_of
count_of-insert id n counts other =
    rw (lookup-insert id other (suc n) counts, count_of)
      (
        λ h. (ground (arith, eq_iff id other), λ e. ground (arith, eq_iff id other, sym e)),
        λ (h, k). ground (arith, eq_iff id other, h, λ (e : id ≡ other). k (sym e)),
      )

-- A count above one stays.
count_above-insert :
    (id : String) (counts : List (String × ℕ)) (n : ℕ)
    → count_of id counts ≤ n
    → has_count_above_one counts ≡ true
    → has_count_above_one (insert id n counts) ≡ true
unfolding insert has_count_above_one lookup count_of
count_above-insert id [] n h e = absurd (cc)
count_above-insert id ((i, m) ∷ counts) n h e =
    ground (arith, eq_iff i id, count_above-insert id counts n)

count_above-count_quotes :
    (ids : List String) (counts : List (String × ℕ))
    → has_count_above_one counts ≡ true
    → has_count_above_one (count_quotes counts ids) ≡ true
unfolding count_quotes
count_above-count_quotes [] counts h = h
count_above-count_quotes (id ∷ ids) counts h =
    let n = suc (count_of id counts) in
    count_above-count_quotes ids (insert id n counts)
      (count_above-insert id counts n (omega arith) h)

-- With no count above one, the new count decides.
has_count-insert :
    (id : String) (n : ℕ) (counts : List (String × ℕ))
    → has_count_above_one counts ≡ false
    → has_count_above_one (insert id n counts) ≡ ltb 1 n
unfolding insert has_count_above_one
has_count-insert id n [] h = ground arith
has_count-insert id n ((i, m) ∷ counts) h = ground (arith, has_count-insert id n counts)

-- Counting finds no supplier twice exactly when the quotes have distinct suppliers.
pub count_quotes_iff :
    (counts : List (String × ℕ)) (ids : List String)
    → has_count_above_one counts ≡ false
    → (has_count_above_one (count_quotes counts ids) ≡ false)
      ↔ (All (λ id. count_of id counts ≡ 0) ids × Distinct ids)
unfolding count_quotes
count_quotes_iff counts [] h = (λ _. (tt, tt), λ _. h)
count_quotes_iff counts (id ∷ ids) h =
    let n = count_of id counts in
    let counts' = insert id (suc n) counts in
    let above = has_count-insert id (suc n) counts h in
    let split =
      All-both_iff (λ o. count_of o counts' ≡ 0) (λ o. count_of o counts ≡ 0) (λ o. o ≢ id)
        (count_of-insert id n counts) ids in
    elim (Bool-cases (has_count_above_one counts')) [
      | inl e ↦ (
        λ k. absurd (cc (count_above-count_quotes ids counts' e)),
        λ k. absurd (ground (arith, above, e, k.0.0)),
      )
      | inr e ↦
          let rest = count_quotes_iff counts' ids e in
          (
            λ k.
                let (new, distinct) = rest.0 k in
                let (unseen, others) = split.0 new in
                ((ground (arith, above, e), unseen), (others, distinct)),
            λ ((new, unseen), (others, distinct)). rest.1 (split.1 (unseen, others), distinct),
          )
    ]
