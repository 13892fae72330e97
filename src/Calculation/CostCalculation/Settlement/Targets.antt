-- ===== src/Calculation/CostCalculation/Settlement/Targets.antt =====
-- The two sides of the ledger always have targets that reach the settled total.
use landed_compare.Prelude.{
  ℕ, ◌+◌, ◌-◌, ◌^◌, ◌≤◌, ◌≡◌, true, false, Bool-cases, inl, inr, ◌⊎◌, arith, String, ◌∙◌,
}
use landed_compare.Prelude.Int.{
  ℤ, pos, ◌+ℤ◌, ◌-ℤ◌, int_laws, pos-+ℤ, pos--ℤ, on_magnitude, is_null, is_pos, pos_part, neg_part,
}
use landed_compare.Prelude.Powers.{pow10_pos}
use landed_compare.Prelude.Rounding.{nearest, nearest_mono, nearest_residual}
use landed_compare.Errors.{ok}
use landed_compare.Domain.DecimalJs.{DecimalJs, IsDecimalJs}
use landed_compare.Domain.Money
use landed_compare.Domain.Money.{Money}
use landed_compare.Domain.Money.Laws.{
  Worth, add-Worth, subtract-Worth, is_zero-Worth, is_positive-Worth, is_negative-Worth,
  round-Worth,
}
use landed_compare.Calculation.CostCalculation.Settlement.{
  EffectPool, PoolTargets, resolve_pool_targets, resolve_residual, no_members, assert_pool_target,
  onto_positive, onto_negative,
}

-- At most one apart.
abbrev pub Near : ℕ → ℕ → Type 0
Near x y = (x ≤ y + 1) × (y ≤ x + 1)

is_null_parts : (z : ℤ) → is_null z ≡ true → (pos_part z ≡ 0) × (neg_part z ≡ 0)
is_null_parts z h = ground arith

-- The residual of four numbers of units, as the code computes it.
abbrev residual_of : ℕ → ℕ → ℕ → ℕ → ℤ
residual_of l m x y = pos l -ℤ pos m -ℤ (pos x -ℤ pos y)

-- It is the difference of two sums.
residual_parts :
    (l m x y : ℕ)
    → (pos_part (residual_of l m x y) ≡ l + y - (m + x))
      × (neg_part (residual_of l m x y) ≡ m + x - (l + y))
unfolding ◌-ℤ◌
residual_parts l m x y = ground arith

residual-cancel : (l m x y : ℕ) → pos x -ℤ pos y +ℤ residual_of l m x y ≡ pos l -ℤ pos m
residual-cancel l m x y = omega int_laws

module _ {D : Type 0} ⦃j : DecimalJs D⦄ (laws : IsDecimalJs D) where
  -- Targets of `a` and `b` units that differ by `difference`.
  abbrev pub Reach : ℕ → String → ℕ → ℕ → ℤ → PoolTargets D → Type 0
  Reach m c settled_p settled_n difference t =
      (a : ℕ) × (b : ℕ) × Worth laws m c t.positive_target (pos a)
      × Worth laws m c t.negative_target (pos b)
      × (pos a -ℤ pos b ≡ difference)
      × Near a settled_p
      × Near b settled_n

  round-pos :
      (m s : ℕ) (c : String) (a : Money D) (x : ℕ)
      → m ≤ s
      → Worth laws s c a (pos x)
      → Worth laws m c (Money.round_to_minor_unit a m) (pos (nearest (10 ^ (s - m)) x))
  unfolding on_magnitude
  round-pos m s c a x le w = round-Worth laws m s c a (pos x) le w

  module _ (m : ℕ) (c : String) (residual p n : Money D) (z : ℤ) (x y : ℕ)
      (wz : Worth laws m c residual z) (wp : Worth laws m c p (pos x))
      (wn : Worth laws m c n (pos y)) (up : pos_part z ≤ 1) (down : neg_part z ≤ 1) where
    onto_positive-Reach :
        neg_part z ≤ x
        → (t : PoolTargets D) × (onto_positive residual p n ≡ ok t)
          × Reach m c x y (pos x -ℤ pos y +ℤ z) t
    unfolding onto_positive
    onto_positive-Reach h =
        let (sum, e, w) = add-Worth laws m c p residual (pos x) z wp wz in
        let a = x + pos_part z - neg_part z in
        (
          _,
          rw e,
          (
            a,
            y,
            rw (pos-+ℤ x z h) at w,
            wn,
            omega int_laws,
            (omega arith, omega arith),
            (omega arith, omega arith),
          ),
        )

    onto_negative-Reach :
        pos_part z ≤ y
        → (t : PoolTargets D) × (onto_negative residual p n ≡ ok t)
          × Reach m c x y (pos x -ℤ pos y +ℤ z) t
    unfolding onto_negative
    onto_negative-Reach h =
        let (rest, e, w) = subtract-Worth laws m c n residual (pos y) z wn wz in
        let b = y + neg_part z - pos_part z in
        (
          _,
          rw e,
          (
            x,
            b,
            wp,
            rw (pos--ℤ y z h) at w,
            omega int_laws,
            (omega arith, omega arith),
            (omega arith, omega arith),
          ),
        )

    -- The residual goes to a side that can take it.
    resolve_residual-Reach :
        (positive negative : EffectPool D)
        → (no_members positive ≡ true → pos_part z ≤ y)
        → (no_members negative ≡ true → neg_part z ≤ x)
        → (t : PoolTargets D) × (resolve_residual residual p n positive negative ≡ ok t)
          × Reach m c x y (pos x -ℤ pos y +ℤ z) t
    unfolding resolve_residual
    resolve_residual-Reach positive negative f g =
        go (Bool-cases (is_null z)) (Bool-cases (is_pos z)) (Bool-cases (no_members positive))
          (Bool-cases (no_members negative))
      where
        go :
            (is_null z ≡ true) ⊎ (is_null z ≡ false)
            → (is_pos z ≡ true) ⊎ (is_pos z ≡ false)
            → (no_members positive ≡ true) ⊎ (no_members positive ≡ false)
            → (no_members negative ≡ true) ⊎ (no_members negative ≡ false)
            → (t : PoolTargets D) × (resolve_residual residual p n positive negative ≡ ok t)
              × Reach m c x y (pos x -ℤ pos y +ℤ z) t
        go (inl e) _ _ _ = (
          record { positive_target = p; negative_target = n },
          rw (is_zero-Worth laws m c residual z wz, e),
          (
            x,
            y,
            wp,
            wn,
            omega (arith, int_laws, is_null_parts z e),
            (omega arith, omega arith),
            (omega arith, omega arith),
          ),
        )
        go (inr e) (inl q) (inl i) _ =
            rw
              (
                is_zero-Worth laws m c residual z wz,
                e,
                is_positive-Worth laws m c residual z wz,
                q,
                i,
              )
              (onto_negative-Reach (f i))
        go (inr e) (inl q) (inr i) _ =
            rw
              (
                is_zero-Worth laws m c residual z wz,
                e,
                is_positive-Worth laws m c residual z wz,
                q,
                i,
              )
              (onto_positive-Reach (ground arith))
        go (inr e) (inr q) _ (inl i) =
            rw
              (
                is_zero-Worth laws m c residual z wz,
                e,
                is_positive-Worth laws m c residual z wz,
                q,
                i,
              )
              (onto_positive-Reach (g i))
        go (inr e) (inr q) _ (inr i) =
            rw
              (
                is_zero-Worth laws m c residual z wz,
                e,
                is_positive-Worth laws m c residual z wz,
                q,
                i,
              )
              (onto_negative-Reach (ground arith))

  target-ok :
      (m : ℕ) (c : String) (t : Money D) (a : ℕ)
      → Worth laws m c t (pos a)
      → assert_pool_target t ≡ ok tt
  unfolding assert_pool_target
  target-ok m c t a w = rw (is_negative-Worth laws m c t (pos a) w)

  -- Let the exact landed total, the merchandise total and the two pools of effects stand in balance, and
  -- let a pool with no members be worth nothing. Then the targets of the pools exist, neither is
  -- negative, their difference is what the settled landed total has over the settled merchandise
  -- total, and each is at most one minor unit away from its own pool's rounded total.
  pub resolve_pool_targets-Reach :
      (m s : ℕ) (c : String) (total : Money D) (positive negative : EffectPool D)
      (merchandise landed p n : ℕ)
      → m ≤ s
      → landed + n ≡ merchandise + p
      → Worth laws s c positive.total (pos p)
      → Worth laws s c negative.total (pos n)
      → (no_members positive ≡ true → p ≡ 0)
      → (no_members negative ≡ true → n ≡ 0)
      → Worth laws m c total
          (pos (nearest (10 ^ (s - m)) landed) -ℤ pos (nearest (10 ^ (s - m)) merchandise))
      → (t : PoolTargets D) × (resolve_pool_targets total positive negative m ≡ ok t)
        × Reach m c
            (nearest (10 ^ (s - m)) p)
            (nearest (10 ^ (s - m)) n)
            (pos (nearest (10 ^ (s - m)) landed) -ℤ pos (nearest (10 ^ (s - m)) merchandise))
            t
  unfolding resolve_pool_targets
  resolve_pool_targets-Reach m s c total positive negative merchandise landed p n le balance wp wn f
        g wt =
      let u = 10 ^ (s - m) in
      let rp = round-pos m s c positive.total p le wp in
      let rn = round-pos m s c negative.total n le wn in
      let (difference, e₁, w₁) = subtract-Worth laws m c _ _ _ _ rp rn in
      let (residual, e₂, w₂) = subtract-Worth laws m c _ _ _ _ wt w₁ in
      let near = nearest_residual u landed n merchandise p (pow10_pos (s - m)) balance in
      let x = nearest u p in
      let y = nearest u n in
      let z = residual_of (nearest u landed) (nearest u merchandise) x y in
      let parts = residual_parts (nearest u landed) (nearest u merchandise) x y in
      let (t, e₃, (a, b, wa, wb, e₄, na, nb)) =
        resolve_residual-Reach m c residual _ _ z x y w₂ rp rn (omega arith) (omega arith) positive
          negative
          (λ none.
            omega (
              arith,
              nearest_mono u landed merchandise (pow10_pos (s - m)) (omega (arith, f none)),
            ))
          (λ none. omega (
            arith,
            nearest_mono u merchandise landed (pow10_pos (s - m)) (omega (arith, g none)),
          )) in
      (
        t,
        rw (e₁, e₂, e₃, target-ok m c _ a wa, target-ok m c _ b wb),
        (a, b, wa, wb, e₄ ∙ residual-cancel _ _ x y, na, nb),
      )
