-- ===== src/Calculation/Allocation/Distribution/Units.antt =====
-- The hand-out counted in minor units: what each line has, and what it may have at most.
use landed_compare.Prelude.{
  ℕ, suc, ◌+◌, ◌-◌, ◌≤◌, ◌<◌, ◌≡◌, refl, sym, ap, subst, ◌∙◌, ◌⊎◌, inl, inr, Bool, true, false,
  Option, none, some, List, [], ◌∷◌, arith, leb, ◌==◌, All, if◌then◌else◌, Bool-cases,
}

-- A line with `held` units and room for `cap`, if it is capped.
pub record Line : Type 0 where
  pub held : ℕ
  pub cap : Option ℕ

abbrev pub held_sum : List Line → ℕ
held_sum [] = 0
held_sum (l ∷ ls) = l.held + held_sum ls

abbrev pub full_at : ℕ → Option ℕ → Bool
full_at n none = false
full_at n (some k) = leb k n

-- No line holds more than its cap.
abbrev pub Under : ℕ → Option ℕ → Type 0
Under n none = Unit
Under n (some k) = n ≤ k

abbrev pub Fits : Line → Type 0
Fits l = Under l.held l.cap

abbrev pub Full : Line → Type 0
Full l = full_at l.held l.cap ≡ true

-- The lines that a pass has been through, last one first; what is left; whether a unit was placed.
pub record Pass : Type 0 where
  pub done : List Line
  pub left : ℕ
  pub placed : Bool

unfoldable pub place_unit : Line → Pass → Pass
place_unit l p =
    if p.left == 0
    then record p { done = l ∷ p.done }
    else if full_at l.held l.cap
    then record p { done = l ∷ p.done }
    else record { done = record l { held = suc l.held } ∷ p.done; left = p.left - 1; placed = true }

unfoldable pub pass_units : List Line → Pass → Pass
pass_units [] p = p
pass_units (l ∷ ls) p = pass_units ls (place_unit l p)

unfoldable pub back {ℓ} : {A : Type ℓ} → List A → List A → List A
back done [] = done
back done (x ∷ xs) = back (x ∷ done) xs

place_unit-sum :
    (l : Line) (p : Pass)
    → held_sum (place_unit l p).done + (place_unit l p).left ≡ l.held + held_sum p.done + p.left
unfolding place_unit
place_unit-sum l p = ground arith

-- A pass keeps the units.
pub pass_units-sum :
    (ls : List Line) (p : Pass)
    → held_sum (pass_units ls p).done + (pass_units ls p).left
      ≡ held_sum ls + held_sum p.done + p.left
unfolding pass_units
pass_units-sum [] p = omega arith
pass_units-sum (l ∷ ls) p = omega (arith, pass_units-sum ls (place_unit l p), place_unit-sum l p)

-- A line is passed over, for want of units or of room, or it gets one unit.
place_unit-cases :
    (l : Line) (p : Pass)
    → (((p.left ≡ 0) ⊎ Full l) × (place_unit l p ≡ record p { done = l ∷ p.done }))
      ⊎ ((0 < p.left)
          × (full_at l.held l.cap ≡ false)
          × (place_unit l p ≡ record {
            done = record l { held = suc l.held } ∷ p.done;
            left = p.left - 1;
            placed = true;
          }))
unfolding place_unit
place_unit-cases l p = elim (Bool-cases (p.left == 0)) [
  | inl e ↦ inl (inl (ground (arith, e)), rw e refl)
  | inr e ↦ elim (Bool-cases (full_at l.held l.cap)) [
    | inl f ↦ inl (inr f, rw (e, f) refl)
    | inr f ↦ inr (ground (arith, e), f, rw (e, f) refl)
  ]
]

not_full : (n : ℕ) (cap : Option ℕ) → full_at n cap ≡ false → Under (suc n) cap
not_full n none h = tt
not_full n (some k) h = ground (arith, h)

place_unit-Fits : (l : Line) (p : Pass) → Fits l → All Fits p.done → All Fits (place_unit l p).done
place_unit-Fits l p f fs = elim (place_unit-cases l p) [
  | inl (_, e) ↦ subst (λ q. All Fits q.done) (sym e) (f, fs)
  | inr (_, room, e) ↦ subst (λ q. All Fits q.done) (sym e) (not_full l.held l.cap room, fs)
]

pub pass_units-Fits :
    (ls : List Line) (p : Pass) → All Fits ls → All Fits p.done → All Fits (pass_units ls p).done
unfolding pass_units
pass_units-Fits [] p f fs = fs
pass_units-Fits (l ∷ ls) p (f, fs) gs =
    pass_units-Fits ls (place_unit l p) fs (place_unit-Fits l p f gs)

pub held_sum-back : (done xs : List Line) → held_sum (back done xs) ≡ held_sum done + held_sum xs
unfolding back
held_sum-back done [] = omega arith
held_sum-back done (x ∷ xs) = omega (arith, held_sum-back (x ∷ done) xs)

pub All-back :
    (P : Line → Type 0) (done xs : List Line) → All P done → All P xs → All P (back done xs)
unfolding back
All-back P done [] ps qs = ps
All-back P done (x ∷ xs) ps (q, qs) = All-back P (x ∷ done) xs (q, ps) qs

-- A pass that places a unit leaves fewer.
pub pass_units-left :
    (ls : List Line) (p : Pass)
    → ((pass_units ls p).left ≤ p.left)
      × ((pass_units ls p).placed ≡ true → (p.placed ≡ true) ⊎ ((pass_units ls p).left < p.left))
      × (p.placed ≡ true → (pass_units ls p).placed ≡ true)
unfolding pass_units
pass_units-left [] p = (omega arith, λ h. inl h, λ h. h)
pass_units-left (l ∷ ls) p =
    let (a, b, c) = pass_units-left ls (place_unit l p) in
    elim (place_unit-cases l p) [
      | inl (_, e) ↦
          let left = ap (λ q. q.left) e in
          let placed = ap (λ q. q.placed) e in
          (
            omega (arith, a, left),
            λ h. elim (b h) [ inl q ↦ inl (sym placed ∙ q) | inr q ↦ inr (omega (arith, q, left)) ],
            λ h. c (placed ∙ h),
          )
      | inr (some_left, _, e) ↦
          let left = ap (λ q. q.left) e in
          (
            omega (arith, a, left),
            λ h. inr (omega (arith, a, left, some_left)),
            λ h. c (ap (λ q. q.placed) e),
          )
    ]

-- A pass that places none while units are left has met full lines only.
pub pass_units-Full :
    (ls : List Line) (p : Pass)
    → (pass_units ls p).placed ≡ false
    → All Full p.done
    → ((pass_units ls p).left ≡ 0) ⊎ All Full (pass_units ls p).done
unfolding pass_units
pass_units-Full [] p h f = inr f
pass_units-Full (l ∷ ls) p h f =
    let (a, b, c) = pass_units-left ls (place_unit l p) in
    elim (place_unit-cases l p) [
      | inl (inl none_left, e) ↦ inl (omega (arith, a, ap (λ q. q.left) e, none_left))
      | inl (inr full, e) ↦
          pass_units-Full ls (place_unit l p) h (subst (λ q. All Full q.done) (sym e) (full, f))
      | inr (_, _, e) ↦ absurd (cc (h, c (ap (λ q. q.placed) e)))
    ]
