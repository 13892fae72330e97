-- ===== src/Calculation/Allocation/Distribution/HandOuts.antt =====
-- The hand-out of whole minor units ends, keeps every unit, and respects the capacities.
use landed_compare.Prelude.{
  ℕ, zero, suc, ◌+◌, ◌-◌, ◌^◌, ◌<◌, ◌≡◌, refl, sym, ap, subst, ◌∙◌, ◌⊎◌, inl, inr, Bool, true,
  false, not, ◌&&◌, Option, none, some, List, [], ◌∷◌, String, arith, All, Bool-cases, ◌==◌,
}
use landed_compare.Prelude.Int.{pos, ◌+ℤ◌, ◌-ℤ◌, int_laws, magnitude}
use landed_compare.Errors.{ok}
use landed_compare.Domain.DecimalJs.{DecimalJs, IsDecimalJs}
use landed_compare.Domain.Decimal.{integer_digits_of}
use landed_compare.Domain.Decimal.Digits.{magnitude-at-lt}
use landed_compare.Domain.Money
use landed_compare.Domain.Money.{Money}
use landed_compare.Domain.Money.Laws.{
  Worth, add-Worth, subtract-Worth, is_zero-Worth, compare_to-Worth,
}
use landed_compare.Calculation.Allocation.Distribution.{
  AllocationSlot, HandOut, is_full, place_unless, place, hand_out_pass, reversed, one_pass,
  hand_out, rounds,
}
use landed_compare.Calculation.Allocation.Distribution.Units.{
  Line, Pass, Fits, Full, full_at, held_sum, place_unit, pass_units, back, pass_units-sum,
  pass_units-Fits, held_sum-back, All-back, pass_units-left, pass_units-Full,
}

succ_pos : (n : ℕ) → pos n +ℤ pos 1 ≡ pos (suc n)
succ_pos n = omega int_laws

pred_pos : (n : ℕ) → 0 < n → pos n -ℤ pos 1 ≡ pos (n - 1)
pred_pos n h = omega int_laws

module _ {D : Type 0} ⦃j : DecimalJs D⦄ (laws : IsDecimalJs D) (m : ℕ) (c : String) where
  -- A capacity of so many minor units, or none.
  abbrev pub HasCap : Option (Money D) → Option ℕ → Type 0
  HasCap none none = Unit
  HasCap (some money) (some k) = Worth laws m c money (pos k)
  HasCap _ _ = ⊥

  -- A slot with what it holds and may hold, in minor units.
  abbrev pub Reads : AllocationSlot D → Line → Type 0
  Reads s l = Worth laws m c s.allocated (pos l.held) × HasCap s.capacity l.cap

  abbrev pub ReadsAll : List (AllocationSlot D) → List Line → Type 0
  ReadsAll [] [] = Unit
  ReadsAll (s ∷ ss) (l ∷ ls) = Reads s l × ReadsAll ss ls
  ReadsAll _ _ = ⊥

  -- The variables of a pass.
  abbrev pub ReadsPass : HandOut D → Pass → Type 0
  ReadsPass h p =
      ReadsAll h.slots p.done × Worth laws m c h.undistributed (pos p.left) × (h.placed ≡ p.placed)

  module _ (step : Money D) (one : Worth laws m c step (pos 1)) where
    is_full-eq :
        (next : Money D) (n : ℕ) (capacity : Option (Money D)) (cap : Option ℕ)
        → Worth laws m c next (pos (suc n))
        → HasCap capacity cap
        → is_full next capacity ≡ ok (full_at n cap)
    unfolding is_full Money.is_greater_than
    is_full-eq next n none none w h = refl
    is_full-eq next n (some money) (some k) w h =
        rw (compare_to-Worth laws m c next money (pos (suc n)) (pos k) w h) (ap ok (ground arith))
    is_full-eq next n none (some k) w h = absurd h
    is_full-eq next n (some money) none w h = absurd h

    -- One round does to the amounts what it does to the units.
    place-Reads :
        (s : AllocationSlot D) (l : Line) (h : HandOut D) (p : Pass)
        → Reads s l
        → ReadsPass h p
        → (h' : HandOut D) × (place step s h ≡ ok h') × ReadsPass h' (place_unit l p)
    unfolding place place_unit place_unless
    place-Reads s l h p (w, k) (ss, u, q) =
        let null = is_zero-Worth laws m c h.undistributed (pos p.left) u in
        elim (Bool-cases (p.left == 0)) [
          | inl e ↦
              let none_left : Money.is_zero h.undistributed ≡ true = ground (arith, null, e) in
              (record h { slots = s ∷ h.slots }, rw none_left refl, rw e (((w, k), ss), u, q))
          | inr e ↦
              let some_left : Money.is_zero h.undistributed ≡ false = ground (arith, null, e) in
              let (next, added, w') =
                add-Worth laws m c s.allocated step (pos l.held) (pos 1) w one in
              let more : Worth laws m c next (pos (suc l.held)) =
                subst (Worth laws m c next) (succ_pos l.held) w' in
              let full = is_full-eq next l.held s.capacity l.cap more k in
              elim (Bool-cases (full_at l.held l.cap)) [
                | inl f ↦ (
                  record h { slots = s ∷ h.slots },
                  rw (some_left, added, full, f) refl,
                  rw (e, f) (((w, k), ss), u, q),
                )
                | inr f ↦
                    let (left, taken, u') =
                      subtract-Worth laws m c h.undistributed step (pos p.left) (pos 1) u one in
                    let rest : Worth laws m c left (pos (p.left - 1)) =
                      subst (Worth laws m c left) (pred_pos p.left (ground (arith, e))) u' in
                    (
                      record {
                        slots = record s { allocated = next } ∷ h.slots;
                        undistributed = left;
                        placed = true;
                      },
                      rw (some_left, added, full, f, taken) refl,
                      rw (e, f) (((more, k), ss), rest, refl),
                    )
              ]
        ]

    hand_out_pass-Reads :
        (ss : List (AllocationSlot D)) (ls : List Line) (h : HandOut D) (p : Pass)
        → ReadsAll ss ls
        → ReadsPass h p
        → (h' : HandOut D) × (hand_out_pass step ss h ≡ ok h') × ReadsPass h' (pass_units ls p)
    unfolding hand_out_pass pass_units
    hand_out_pass-Reads [] [] h p rs r = (h, refl, r)
    hand_out_pass-Reads (s ∷ ss) (l ∷ ls) h p (r, rs) q =
        let (h', e, r') = place-Reads s l h p r q in
        let (h'', f, r'') = hand_out_pass-Reads ss ls h' (place_unit l p) rs r' in
        (h'', rw e f, r'')
    hand_out_pass-Reads [] (l ∷ ls) h p rs r = absurd rs
    hand_out_pass-Reads (s ∷ ss) [] h p rs r = absurd rs

    reversed-Reads :
        (ds xs : List (AllocationSlot D)) (es ys : List Line)
        → ReadsAll ds es
        → ReadsAll xs ys
        → ReadsAll (reversed ds xs) (back es ys)
    unfolding reversed back
    reversed-Reads ds [] es [] r q = r
    reversed-Reads ds (x ∷ xs) es (y ∷ ys) r (q, qs) =
        reversed-Reads (x ∷ ds) xs (y ∷ es) ys (q, r) qs
    reversed-Reads ds [] es (y ∷ ys) r q = absurd q
    reversed-Reads ds (x ∷ xs) es [] r q = absurd q

    -- What a pass leaves: every unit, within the caps, and fewer to place if it placed one.
    abbrev After : List Line → ℕ → HandOut D → List Line → ℕ → Type 0
    After ls u h ls' u' =
        ReadsAll h.slots ls'
        × Worth laws m c h.undistributed (pos u')
        × (held_sum ls' + u' ≡ held_sum ls + u)
        × All Fits ls'

    one_pass-After :
        (ss : List (AllocationSlot D)) (ls : List Line) (und : Money D) (u : ℕ)
        → ReadsAll ss ls
        → Worth laws m c und (pos u)
        → All Fits ls
        → (h : HandOut D) × (ls' : List Line) × (u' : ℕ) × (one_pass step ss und ≡ ok h)
          × After ls u h ls' u'
          × (h.placed ≡ true → u' < u)
          × (h.placed ≡ false → (u' ≡ 0) ⊎ All Full ls')
    unfolding one_pass back
    one_pass-After ss ls und u rs w fits =
        let start : Pass = record { done = []; left = u; placed = false } in
        let h₀ : HandOut D = record { slots = []; undistributed = und; placed = false } in
        let (h, e, (r, w', q)) = hand_out_pass-Reads ss ls h₀ start rs (tt, w, refl) in
        let p = pass_units ls start in
        let (le, lt, _) = pass_units-left ls start in
        (
          record h { slots = reversed [] h.slots },
          back [] p.done,
          p.left,
          rw e refl,
          (
            reversed-Reads [] h.slots [] p.done tt r,
            w',
            omega (arith, pass_units-sum ls start, held_sum-back [] p.done),
            All-back Fits [] p.done tt (pass_units-Fits ls start fits tt),
          ),
          λ t. elim (lt (sym q ∙ t)) [ inl f ↦ absurd (cc f) | inr lt' ↦ lt' ],
          λ f. elim (pass_units-Full ls start (sym q ∙ f) tt) [
            | inl z ↦ inl z
            | inr full ↦ inr (All-back Full [] p.done tt full)
          ],
        )

    -- The hand-out ends with slots that hold `ls'`, and `u'` units left.
    abbrev pub Settled : ℕ → Bool → List (AllocationSlot D) → List Line → Money D → ℕ → Type 0
    Settled fuel constrained ss ls und u =
        (h : HandOut D) × (ls' : List Line) × (u' : ℕ) × (hand_out fuel constrained step ss und
          ≡ ok h)
        × ReadsAll h.slots ls'
        × Worth laws m c h.undistributed (pos u')
        × (held_sum ls' + u' ≡ held_sum ls + u)
        × All Fits ls'
        × (constrained ≡ true → (u' ≡ 0) ⊎ All Full ls')

    -- Fuel for each unit that is left is enough.
    hand_out-After :
        (fuel : ℕ) (constrained : Bool) (ss : List (AllocationSlot D)) (ls : List Line)
        (und : Money D) (u : ℕ)
        → u < fuel
        → ReadsAll ss ls
        → Worth laws m c und (pos u)
        → All Fits ls
        → Settled fuel constrained ss ls und u
    unfolding hand_out
    hand_out-After zero constrained ss ls und u lt rs w fits = absurd (omega arith)
    hand_out-After (suc fuel) constrained ss ls und u lt rs w fits =
        let (h, ls', u', e, (r, w', kept, fits'), placed, stopped) =
          one_pass-After ss ls und u rs w fits in
        let null = is_zero-Worth laws m c h.undistributed (pos u') w' in
        let ended : (h.placed && constrained && not (Money.is_zero h.undistributed)) ≡ false
            → (constrained ≡ true → (u' ≡ 0) ⊎ All Full ls')
            → Settled (suc fuel) constrained ss ls und u =
          λ q final. (h, ls', u', rw (e, q) refl, r, w', kept, fits', final) in
        elim (Bool-cases h.placed) [
          | inr f ↦ ended (ground (arith, f)) (λ _. stopped f)
          | inl t ↦ elim (Bool-cases constrained) [
            | inr f ↦ ended (ground (arith, f)) (λ k. absurd (cc (f, k)))
            | inl k ↦ elim (Bool-cases (u' == 0)) [
              | inl z ↦ ended (ground (arith, null, z)) (λ _. inl (ground (arith, z)))
              | inr z ↦
                  let more : (h.placed && constrained && not (Money.is_zero h.undistributed))
                      ≡ true =
                    ground (arith, t, k, null, z) in
                  let less = placed t in
                  let (h', ls'', u'', e', r', w'', kept', fits'', final) =
                    hand_out-After fuel constrained h.slots ls' h.undistributed u' (omega arith) r
                      w' fits' in
                  (h', ls'', u'', rw (e, more) e', r', w'', omega arith, fits'', final)
            ]
          ]
        ]

    -- With the rounds that the model allows, a hand-out of any number of minor units to slots that hold no
    -- more than their capacities ends without an error. No unit is lost, and no slot is above its
    -- capacity. If there are capacities, it ends only when nothing is left or every slot is full.
    pub hand_out-Settled :
        (constrained : Bool) (ss : List (AllocationSlot D)) (ls : List Line) (und : Money D) (u : ℕ)
        → ReadsAll ss ls
        → Worth laws m c und (pos u)
        → All Fits ls
        → Settled (rounds und m) constrained ss ls und u
    unfolding rounds
    hand_out-Settled constrained ss ls und u rs w fits =
        let bound : u < 10 ^ (integer_digits_of und.amount + m) =
          subst (λ z. magnitude z < 10 ^ (integer_digits_of und.amount + m)) w.1.1
            (magnitude-at-lt laws und.amount m w.1.0) in
        hand_out-After (suc (10 ^ (integer_digits_of und.amount + m))) constrained ss ls und u
          (omega (arith, bound)) rs w fits
