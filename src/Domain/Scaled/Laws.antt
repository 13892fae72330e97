-- ===== src/Domain/Scaled/Laws.antt =====
-- The scaled numbers behave as `decimal.js` is documented to.
use landed_compare.Prelude.{
  ℕ, zero, suc, ◌+◌, ◌-◌, ◌*◌, ◌/◌, ◌^◌, ◌≤◌, ◌<◌, ◌≡◌, refl, sym, ap, ◌∙◌, max, ltb, compare,
  arith, Bool-cases, inl, inr, ◌⊎◌,
}
use landed_compare.Prelude.Int.{
  ℤ, pos, negsuc, ◌+ℤ◌, ◌-ℤ◌, magnitude, compare_ℤ, scale_ℤ, scale_ℤ-+ℤ, scale_ℤ--ℤ, scale_ℤ_one,
  on_magnitude, pos_part, neg_part, scale_ℤ_parts, sub_ℕ, -ℤ_parts,
}
use landed_compare.Prelude.Powers.{pow10_pos, pow10-add}
use landed_compare.Domain.DecimalJs.{IsDecimalJs, Denotes, at, Rounding, half_up, down, round_units}
use landed_compare.Domain.Decimal.Digits.{at-at}
use landed_compare.Domain.Scaled.Text.{Scaled, parse, parse-print, is_blank-print}
use landed_compare.Domain.Scaled.{scaled_js, at_scale, common, digit_count, digits_of, round_scaled}
use native.Mathlib.Nat.{
  pow-suc, le-mul_of_pos_right, mul_assoc, div-eq_of_lt-le, pow-succ', mul-div-mul_right,
  mul-lt-mul_of_pos_right,
}

abbrev units_of : Scaled → ℤ
units_of d = d.units

pub Denotes-self : (d : Scaled) → Denotes units_of d.places d d.units
Denotes-self d =
    let e : d.places - d.places ≡ 0 = omega arith in (omega arith, rw e (scale_ℤ_one d.units))

pub common-Denotes :
    (op : ℤ → ℤ → ℤ) (s : ℕ) (a b : Scaled)
    → ((x y : ℤ) (k : ℕ) → scale_ℤ (op x y) k ≡ op (scale_ℤ x k) (scale_ℤ y k))
    → a.places ≤ s
    → b.places ≤ s
    → Denotes units_of s (common op a b) (op (at units_of s a) (at units_of s b))
common-Denotes op s a b linear ha hb =
    let t = max a.places b.places in
    (
      omega arith,
      rw (
        linear,
        ← at-at units_of a t s (omega arith) (omega arith),
        ← at-at units_of b t s (omega arith) (omega arith),
      ),
    )

pub lt-digit_count : (f n : ℕ) → n ≤ f → n < 10 ^ digit_count f n
lt-digit_count zero n h = omega arith
lt-digit_count (suc f) n h = elim (Bool-cases (ltb n 10)) [
  | inl e ↦ rw e (ground arith)
  | inr e ↦ rw (e, pow-suc) (omega (arith, lt-digit_count f (n / 10) (omega arith)))
]

-- Rounding does not depend on the scale at which a number is given.
half : (w : ℕ) → 10 * w / 2 ≡ 5 * w
half w = omega arith

scaled_half :
    (v n k : ℕ) → 0 < k → (n + 10 * v / 2) / (10 * v) ≡ (n * k + 10 * v * k / 2) / (10 * v * k)
scaled_half v n k h =
    let whole : 10 * v * k / 2 ≡ 5 * (v * k) = rw (mul_assoc 10 v k) (half (v * k)) in
    let e : n * k + 10 * v * k / 2 ≡ (n + 10 * v / 2) * k =
      omega (arith, ap (λ (t : ℕ). t * k) (half v)) in
    rw e (sym (mul-div-mul_right (n + 10 * v / 2) (10 * v) h))

round_units-scale :
    (r : Rounding) (i n k : ℕ)
    → 0 < k
    → round_units r (10 ^ i) n ≡ round_units r (10 ^ i * k) (n * k)
round_units-scale half_up zero n k h =
    let plain : (n + 0) / 1 ≡ n = omega arith in
    let unit : 1 * k ≡ k = omega arith in
    rw (plain, unit) (sym (div-eq_of_lt-le k (omega arith) (omega arith)))
round_units-scale half_up (suc i) n k h = rw (pow-succ') (scaled_half (10 ^ i) n k h)
round_units-scale down i n k h = sym (mul-div-mul_right n (10 ^ i) h)

scale-pos : (n k : ℕ) → scale_ℤ (pos n) k ≡ pos (n * k)
unfolding scale_ℤ
scale-pos n k = ground arith

scale-negsuc : (n k : ℕ) → 0 < k → scale_ℤ (negsuc n) k ≡ negsuc (suc n * k - 1)
unfolding scale_ℤ
scale-negsuc n k h = ground (arith, le-mul_of_pos_right (suc n) h)

on_magnitude-scale :
    (f g : ℕ → ℕ) (z : ℤ) (k : ℕ)
    → 0 < k
    → ((n : ℕ) → f n ≡ g (n * k))
    → on_magnitude f z ≡ on_magnitude g (scale_ℤ z k)
unfolding on_magnitude
on_magnitude-scale f g (pos n) k h e = rw (scale-pos n k) (ap pos (e n))
on_magnitude-scale f g (negsuc n) k h e =
    rw (scale-negsuc n k h)
      (ap (sub_ℕ 0) (e (suc n) ∙ ap g (omega (arith, le-mul_of_pos_right (suc n) h))))

compare_cases : (x y : ℕ) → (x < y) ⊎ ((x ≡ y) ⊎ (y < x))
compare_cases x y = ground arith

compare-scale : (x y k : ℕ) → 0 < k → compare (x * k) (y * k) ≡ compare x y
compare-scale x y k h = elim (compare_cases x y) [
  | inl lt ↦ ground (arith, mul-lt-mul_of_pos_right lt h)
  | inr (inl e) ↦ ground (arith, ap (λ (t : ℕ). t * k) e)
  | inr (inr gt) ↦ ground (arith, mul-lt-mul_of_pos_right gt h)
]

compare_ℤ-scale : (x y : ℤ) (k : ℕ) → 0 < k → compare_ℤ (scale_ℤ x k) (scale_ℤ y k) ≡ compare_ℤ x y
compare_ℤ-scale x y k h =
    let (xp, xn) = scale_ℤ_parts x k in
    let (yp, yn) = scale_ℤ_parts y k in
    let left : pos_part (scale_ℤ x k) + neg_part (scale_ℤ y k) ≡ (pos_part x + neg_part y) * k =
      omega arith in
    let right : pos_part (scale_ℤ y k) + neg_part (scale_ℤ x k) ≡ (pos_part y + neg_part x) * k =
      omega arith in
    rw (left, right) (compare-scale _ _ k h)

pub round_scaled-Denotes :
    (m s : ℕ) (r : Rounding) (d : Scaled)
    → d.places ≤ s
    → m ≤ s
    → Denotes units_of m
        (round_scaled m r d)
        (on_magnitude (round_units r (10 ^ (s - m))) (at units_of s d))
unfolding round_scaled
round_scaled-Denotes m s r d h le =
    let t = max m d.places in
    let split : s - m ≡ t - m + (s - t) = omega arith in
    let none : m - m ≡ 0 = omega arith in
    (
      omega arith,
      rw (none, scale_ℤ_one, at-at units_of d t s (omega arith) (omega arith), split, pow10-add)
          (on_magnitude-scale _ _ (at_scale t d) (10 ^ (s - t)) (pow10_pos (s - t))
            (λ n. round_units-scale r (t - m) n (10 ^ (s - t)) (pow10_pos (s - t)))),
    )

pub compared-scale :
    (s : ℕ) (a b : Scaled)
    → a.places ≤ s
    → b.places ≤ s
    → compare_ℤ (at_scale (max a.places b.places) a) (at_scale (max a.places b.places) b)
      ≡ compare_ℤ (at units_of s a) (at units_of s b)
compared-scale s a b ha hb =
    let t = max a.places b.places in
    rw
      (
        at-at units_of a t s (omega arith) (omega arith),
        at-at units_of b t s (omega arith) (omega arith),
      )
      (sym (compare_ℤ-scale _ _ (10 ^ (s - t)) (pow10_pos (s - t))))

pub exponent-lt :
    (n digits places : ℕ)
    → n < 10 ^ digits
    → n * 10 ^ neg_part (pos digits -ℤ pos (suc places))
      < 10 ^ (places + 1 + pos_part (pos digits -ℤ pos (suc places)))
exponent-lt n digits places h =
    let x = pos digits -ℤ pos (suc places) in
    let e : places + 1 + pos_part x ≡ digits + neg_part x =
      omega (arith, -ℤ_parts (pos digits) (pos (suc places))) in
    rw (e, pow10-add) (mul-lt-mul_of_pos_right h (pow10_pos _))

unfoldable pub scaled-IsDecimalJs : IsDecimalJs Scaled
unfolding parse
scaled-IsDecimalJs = record {
  numerator = units_of;
  plus_law = λ p s a b ha hb _. common-Denotes ◌+ℤ◌ s a b scale_ℤ-+ℤ ha hb;
  minus_law = λ p s a b ha hb _. common-Denotes ◌-ℤ◌ s a b scale_ℤ--ℤ ha hb;
  times_law = λ p a b _. Denotes-self _;
  round_law = round_scaled-Denotes;
  compared_law = compared-scale;
  zero_law = λ d. ground arith;
  sign_law = λ d _. refl;
  abs_law = λ d. Denotes-self _;
  negated_law = λ d. Denotes-self _;
  exponent_law = λ d _.
      exponent-lt (magnitude d.units) (digits_of d) d.places (lt-digit_count _ _ (omega arith));
  precision_law = λ d. (magnitude d.units, 0, lt-digit_count _ _ (omega arith), omega arith);
  text_law = λ d. (d, is_blank-print d, parse-print d, refl, Denotes-self d);
  zero_text_law =
      (record { units = pos 0; places = 0 }, refl, refl, (omega arith, scale_ℤ_one (pos 0)));
}
