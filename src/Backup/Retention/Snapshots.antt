-- ===== src/Backup/Retention/Snapshots.antt =====
-- Lists of snapshots: their elements, filtered and sorted.
use landed_compare.Prelude.{
  ℕ, ◌≡◌, refl, ap, Bool, true, false, List, [], ◌∷◌, filter, arith, eq_iff, All, Bool-cases, In,
  ◌⊎◌, inl, inr, Ordering, is_gt,
}
use landed_compare.Prelude.Sorting.{sort_by, insert_by, sort_by-All}
use landed_compare.Prelude.Text.{compare_text, compare_units, utf16, code_points}
use landed_compare.Prelude.Maps.{contains}
use landed_compare.Backup.Retention.{
  SnapshotKind, SnapshotSummary, newest_first, ids, pre_restore, kind_eq,
}

In-insert_by :
    (cmp : SnapshotSummary → SnapshotSummary → Ordering) (x s : SnapshotSummary)
    (ss : List SnapshotSummary)
    → (x ≡ s) ⊎ In x ss
    → In x (insert_by cmp s ss)
In-insert_by cmp x s [] h = h
In-insert_by cmp x s (t ∷ ts) h = elim (Bool-cases (is_gt (cmp s t))) [
  | inr e ↦ rw e h
  | inl e ↦ rw e (elim h [
    | inl q ↦ inr (In-insert_by cmp x s ts (inl q))
    | inr (inl q) ↦ inl q
    | inr (inr i) ↦ inr (In-insert_by cmp x s ts (inr i))
  ])
]

pub In-sort_by :
    (cmp : SnapshotSummary → SnapshotSummary → Ordering) (x : SnapshotSummary)
    (ss : List SnapshotSummary)
    → In x ss
    → In x (sort_by cmp ss)
In-sort_by cmp x [] i = i
In-sort_by cmp x (s ∷ ss) (inl q) = In-insert_by cmp x s (sort_by cmp ss) (inl q)
In-sort_by cmp x (s ∷ ss) (inr i) =
    In-insert_by cmp x s (sort_by cmp ss) (inr (In-sort_by cmp x ss i))

pub In-filter :
    (p : SnapshotSummary → Bool) (x : SnapshotSummary) (ss : List SnapshotSummary)
    → In x ss
    → p x ≡ true
    → In x (filter p ss)
In-filter p x [] i h = i
In-filter p x (s ∷ ss) (inl q) h = rw (← q, h) (inl refl)
In-filter p x (s ∷ ss) (inr i) h = elim (Bool-cases (p s)) [
  | inl e ↦ rw e (inr (In-filter p x ss i h))
  | inr e ↦ rw e (In-filter p x ss i h)
]

pub contains-In :
    (x : SnapshotSummary) (ss : List SnapshotSummary) → In x ss → contains x.id (ids ss) ≡ true
contains-In x [] i = absurd (i tt)
contains-In x (s ∷ ss) (inl q) = ground (arith, ap (λ y. y.id) q, eq_iff s.id x.id)
contains-In x (s ∷ ss) (inr i) = ground (arith, contains-In x ss i)

compare_units-gt :
    (xs ys : List ℕ) → compare_units xs ys ≡ Ordering.lt → compare_units ys xs ≡ Ordering.gt
compare_units-gt [] [] h = absurd (cc)
compare_units-gt [] (y ∷ ys) h = refl
compare_units-gt (x ∷ xs) [] h = absurd (cc)
compare_units-gt (x ∷ xs) (y ∷ ys) h = ground (arith, compare_units-gt xs ys)

-- Strictly after in time is strictly first in the order.
abbrev pub Precedes : SnapshotSummary → SnapshotSummary → Type 0
Precedes s r = (is_gt (newest_first s r) ≡ false) × (is_gt (newest_first r s) ≡ true)

pub earlier-Precedes :
    (s r : SnapshotSummary) → compare_text r.created_at s.created_at ≡ Ordering.lt → Precedes s r
unfolding newest_first compare_text
earlier-Precedes s r h =
    let back =
      compare_units-gt (utf16 (code_points r.created_at)) (utf16 (code_points s.created_at)) h in
    (ground (arith, back), ground (arith, h))

pub kind_eq-pre_restore :
    (kind : SnapshotKind) → kind_eq kind pre_restore ≡ true → kind ≡ pre_restore
kind_eq-pre_restore kind h = ground arith

pub All-filter :
    (p : SnapshotSummary → Bool) (P : SnapshotSummary → Type 0) (xs : List SnapshotSummary)
    → ((x : SnapshotSummary) → In x xs → p x ≡ true → P x)
    → All P (filter p xs)
All-filter p P [] h = tt
All-filter p P (x ∷ xs) h =
    let rest = All-filter p P xs (λ y i. h y (inr i)) in
    elim (Bool-cases (p x)) [ inl e ↦ rw e (h x (inl refl) e, rest) | inr e ↦ rw e rest ]

module _ (cmp : SnapshotSummary → SnapshotSummary → Ordering) (s : SnapshotSummary) where
  -- The element itself, or one that it strictly precedes.
  abbrev pub Behind : SnapshotSummary → Type 0
  Behind r = (r ≡ s) ⊎ ((is_gt (cmp s r) ≡ false) × (is_gt (cmp r s) ≡ true))

  insert_by-first :
      (ys : List SnapshotSummary)
      → All Behind ys
      → (rest : List SnapshotSummary) × (insert_by cmp s ys ≡ s ∷ rest)
  insert_by-first [] h = ([], refl)
  insert_by-first (y ∷ ys) (inr (a, b), h) = (y ∷ ys, rw a refl)
  insert_by-first (y ∷ ys) (inl q, h) = elim (Bool-cases (is_gt (cmp s y))) [
    | inl e ↦ (insert_by cmp s ys, rw e (ap (λ z. z ∷ insert_by cmp s ys) q))
    | inr e ↦ (y ∷ ys, rw e refl)
  ]

  -- A sort puts what strictly precedes all others first.
  pub sort_by-first :
      (xs : List SnapshotSummary)
      → In s xs
      → All Behind xs
      → (rest : List SnapshotSummary) × (sort_by cmp xs ≡ s ∷ rest)
  sort_by-first [] i h = absurd (i tt)
  sort_by-first (x ∷ xs) (inl q) (b, h) =
      rw (← q) (insert_by-first (sort_by cmp xs) (sort_by-All cmp Behind xs h))
  sort_by-first (x ∷ xs) (inr i) (inl q, h) =
      rw q (insert_by-first (sort_by cmp xs) (sort_by-All cmp Behind xs h))
  sort_by-first (x ∷ xs) (inr i) (inr (a, b), h) =
      let (rest, e) = sort_by-first xs i h in (insert_by cmp x rest, rw (e, b) refl)
