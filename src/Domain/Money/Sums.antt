-- ===== src/Domain/Money/Sums.antt =====
-- Sums of amounts in one currency.
use landed_compare.Prelude.{
  ℕ, ◌≡◌, ◌^◌, ◌-◌, sym, subst, refl, String, true, List, [], ◌∷◌, arith, eq_iff, Bool-cases, inl,
  inr,
}
use landed_compare.Prelude.Int.{ℤ, pos, ◌+ℤ◌, int_laws, scale_ℤ}
use landed_compare.Errors.{ok, ◌>>=◌, reduce}
use landed_compare.Domain.DecimalJs.{DecimalJs, IsDecimalJs, Denotes}
use landed_compare.Domain.CurrencyCode.{parse_currency_code, is_valid_currency_code}
use landed_compare.Domain.Decimal.{parse_exact_decimal}
use landed_compare.Domain.Money.{Money, zero, add, equals}
use landed_compare.Domain.Money.Laws.{Worth, add-Worth, Worth-widen}

abbrev pub sum_ℤ : List ℤ → ℤ
sum_ℤ [] = pos 0
sum_ℤ (z ∷ zs) = z +ℤ sum_ℤ zs

+ℤ_assoc : (a b c : ℤ) → (a +ℤ b) +ℤ c ≡ a +ℤ (b +ℤ c)
+ℤ_assoc a b c = omega int_laws

+ℤ_zero : (a : ℤ) → a +ℤ pos 0 ≡ a
+ℤ_zero a = omega int_laws

pub zero_+ℤ : (a : ℤ) → pos 0 +ℤ a ≡ a
zero_+ℤ a = omega int_laws

scale_zero : (k : ℕ) → scale_ℤ (pos 0) k ≡ pos 0
unfolding scale_ℤ
scale_zero k = ground arith

module _ {D : Type 0} ⦃j : DecimalJs D⦄ (laws : IsDecimalJs D) (s : ℕ) (c : String) where
  open laws use {numerator, zero_text_law, compared_law}

  -- Amounts of these numbers of units, one by one.
  abbrev pub Worths : List (Money D) → List ℤ → Type 0
  Worths [] [] = Unit
  Worths (m ∷ ms) (z ∷ zs) = Worth laws s c m z × Worths ms zs
  Worths _ _ = ⊥

  -- Adding up amounts in one currency gives the sum of their units.
  pub reduce-add-Worth :
      (ms : List (Money D)) (zs : List ℤ) (start : Money D) (x : ℤ)
      → Worth laws s c start x
      → Worths ms zs
      → (m : Money D) × (reduce add start ms ≡ ok m) × Worth laws s c m (x +ℤ sum_ℤ zs)
  reduce-add-Worth [] [] start x w ws =
      (start, refl, subst (Worth laws s c start) (sym (+ℤ_zero x)) w)
  reduce-add-Worth (m ∷ ms) (z ∷ zs) start x w (v, ws) =
      let (sum, e, w') = add-Worth laws s c start m x z w v in
      let (total, f, w'') = reduce-add-Worth ms zs sum (x +ℤ z) w' ws in
      (total, rw e f, subst (Worth laws s c total) (+ℤ_assoc x z (sum_ℤ zs)) w'')
  reduce-add-Worth [] (z ∷ zs) start x w ws = absurd ws
  reduce-add-Worth (m ∷ ms) [] start x w ws = absurd ws

  zero_parsed :
      (code : String)
      → (d : D) × (zero code
          ≡ (parse_currency_code code >>= λ k. ok (record { amount = d; currency = k })))
        × Denotes numerator 0 d (pos 0)
  unfolding zero parse_exact_decimal
  zero_parsed code = let (d, t, f, w) = zero_text_law in (d, ground (arith, t, f), w)

  -- `Money.zero` succeeds only with nothing of its currency.
  pub zero-Worth : (m : Money D) → zero c ≡ ok m → Worth laws s c m (pos 0)
  unfolding parse_currency_code
  zero-Worth m e =
      let (d, q, w) = zero_parsed c in
      elim (Bool-cases (is_valid_currency_code c)) [
        | inl v ↦
            let same : record { amount = d; currency = c } ≡ m = ground (arith, q, e, v) in
            subst (λ x. Worth laws s c x (pos 0)) same
              (subst (Worth laws s c _) (scale_zero (10 ^ (s - 0))) (
                Worth-widen laws 0 s c (record { amount = d; currency = c }) (pos 0) (omega arith)
                  (refl, w)))
        | inr v ↦ absurd (ground (arith, q, e, v))
      ]

  -- Equal amounts have equal units.
  pub equals-Worth :
      (a b : Money D) (x y : ℤ)
      → Worth laws s c a x
      → Worth laws s c b y
      → equals a b ≡ true
      → x ≡ y
  unfolding equals
  equals-Worth a b x y (p, (h, e)) (q, (k, f)) t =
      ground (arith, eq_iff a.currency b.currency, compared_law s a.amount b.amount h k, e, f)
