-- ===== src/Prelude/Int.antt =====
-- Signed integers over the native numbers, under the library's names (its ℤ stands on the unary ℕ).
-- Sums and orders go through the two parts of an integer, which are numbers that `omega` reads.
use Prim.Native.Nat.{ℕ, suc, ◌+◌, ◌-◌, ◌*◌, ◌≤◌, compare, Ordering}
use mathlib.Core.Path.{◌≡◌, ap}
use mathlib.Core.Bool.{Bool, true, false}
use native.Mathlib.Omega.{arith}
use landed_compare.Prelude.Tests.{leb, ltb, if◌then◌else◌}

-- `negsuc n` is -(n + 1).
pub data ℤ : Type 0 where
  pos : ℕ → ℤ
  negsuc : ℕ → ℤ

abbrev pub pos_part : ℤ → ℕ
pos_part (pos n) = n
pos_part (negsuc n) = 0

abbrev pub neg_part : ℤ → ℕ
neg_part (pos n) = 0
neg_part (negsuc n) = suc n

-- a - b, as an integer.
abbrev pub sub_ℕ : ℕ → ℕ → ℤ
sub_ℕ a b = if leb b a then pos (a - b) else negsuc (b - a - 1)

infixl 65 ◌+ℤ◌ ◌-ℤ◌
infixl 70 ◌*ℤ◌
infix 50 ◌≤ℤ◌
unfoldable pub ◌+ℤ◌ : ℤ → ℤ → ℤ
a +ℤ b = sub_ℕ (pos_part a + pos_part b) (neg_part a + neg_part b)

unfoldable pub ◌-ℤ◌ : ℤ → ℤ → ℤ
a -ℤ b = sub_ℕ (pos_part a + neg_part b) (neg_part a + pos_part b)

unfoldable pub ◌*ℤ◌ : ℤ → ℤ → ℤ
a *ℤ b =
    sub_ℕ (pos_part a * pos_part b + neg_part a * neg_part b)
      (pos_part a * neg_part b + neg_part a * pos_part b)

unfoldable pub neg_ℤ : ℤ → ℤ
neg_ℤ a = sub_ℕ (neg_part a) (pos_part a)

-- The distance from zero.
abbrev pub magnitude : ℤ → ℕ
magnitude (pos n) = n
magnitude (negsuc n) = suc n

abbrev pub is_neg : ℤ → Bool
is_neg (pos n) = false
is_neg (negsuc n) = true

abbrev pub compare_ℤ : ℤ → ℤ → Ordering
compare_ℤ a b = compare (pos_part a + neg_part b) (pos_part b + neg_part a)

abbrev pub ◌≤ℤ◌ : ℤ → ℤ → Type 0
a ≤ℤ b = pos_part a + neg_part b ≤ pos_part b + neg_part a

-- The same sign with the magnitude changed by `f`; a zero magnitude is plain zero.
unfoldable pub on_magnitude : (ℕ → ℕ) → ℤ → ℤ
on_magnitude f (pos n) = pos (f n)
on_magnitude f (negsuc n) = sub_ℕ 0 (f (suc n))

-- The multiple by a natural factor.
unfoldable pub scale_ℤ : ℤ → ℕ → ℤ
scale_ℤ a k = sub_ℕ (pos_part a * k) (neg_part a * k)

pub +ℤ_parts :
    (a b : ℤ)
    → pos_part (a +ℤ b) + neg_part a + neg_part b ≡ neg_part (a +ℤ b) + pos_part a + pos_part b
unfolding ◌+ℤ◌
+ℤ_parts a b = ground arith

pub -ℤ_parts :
    (a b : ℤ)
    → pos_part (a -ℤ b) + neg_part a + pos_part b ≡ neg_part (a -ℤ b) + pos_part a + neg_part b
unfolding ◌-ℤ◌
-ℤ_parts a b = ground arith

pub *ℤ_parts :
    (a b : ℤ)
    → pos_part (a *ℤ b) + (pos_part a * neg_part b + neg_part a * pos_part b)
      ≡ neg_part (a *ℤ b) + (pos_part a * pos_part b + neg_part a * neg_part b)
unfolding ◌*ℤ◌
*ℤ_parts a b = ground arith

pub neg_ℤ_parts : (a : ℤ) → (pos_part (neg_ℤ a) ≡ neg_part a) × (neg_part (neg_ℤ a) ≡ pos_part a)
unfolding neg_ℤ
neg_ℤ_parts (pos n) = ground arith
neg_ℤ_parts (negsuc n) = ground arith

pub scale_ℤ_parts :
    (a : ℤ) (k : ℕ)
    → (pos_part (scale_ℤ a k) ≡ pos_part a * k) × (neg_part (scale_ℤ a k) ≡ neg_part a * k)
unfolding scale_ℤ
scale_ℤ_parts (pos n) k = ground arith
scale_ℤ_parts (negsuc n) k = ground arith

pub magnitude_parts : (a : ℤ) → magnitude a ≡ pos_part a + neg_part a
magnitude_parts (pos n) = omega arith
magnitude_parts (negsuc n) = omega arith

-- One of the two parts is zero.
pub parts_apart : (a : ℤ) → pos_part a * neg_part a ≡ 0
parts_apart (pos n) = omega arith
parts_apart (negsuc n) = omega arith

pub eq_of_parts : (a b : ℤ) → pos_part a + neg_part b ≡ pos_part b + neg_part a → a ≡ b
eq_of_parts a b h = ground arith

pub ruleset int_laws = (arith, +ℤ_parts, -ℤ_parts, eq_of_parts)

-- Sums and differences that are not negative.
pub pos-+ℤ : (x : ℕ) (z : ℤ) → neg_part z ≤ x → pos x +ℤ z ≡ pos (x + pos_part z - neg_part z)
unfolding ◌+ℤ◌
pos-+ℤ x z h = ground arith

pub pos--ℤ : (y : ℕ) (z : ℤ) → pos_part z ≤ y → pos y -ℤ z ≡ pos (y + neg_part z - pos_part z)
unfolding ◌-ℤ◌
pos--ℤ y z h = ground arith

pub magnitude-+ℤ : (a b : ℤ) → magnitude (a +ℤ b) ≤ magnitude a + magnitude b
unfolding ◌+ℤ◌
magnitude-+ℤ a b = ground arith

pub magnitude--ℤ : (a b : ℤ) → magnitude (a -ℤ b) ≤ magnitude a + magnitude b
unfolding ◌-ℤ◌
magnitude--ℤ a b = ground arith

pub magnitude-*ℤ : (a b : ℤ) → magnitude (a *ℤ b) ≡ magnitude a * magnitude b
unfolding ◌*ℤ◌
magnitude-*ℤ (pos n) (pos m) = ground arith
magnitude-*ℤ (pos n) (negsuc m) = ground arith
magnitude-*ℤ (negsuc n) (pos m) = ground arith
magnitude-*ℤ (negsuc n) (negsuc m) = ground arith

pub magnitude-scale_ℤ : (a : ℤ) (k : ℕ) → magnitude (scale_ℤ a k) ≡ magnitude a * k
magnitude-scale_ℤ a k =
    ground (arith, magnitude_parts (scale_ℤ a k), magnitude_parts a, scale_ℤ_parts a k)

pub scale_ℤ_one : (a : ℤ) → scale_ℤ a 1 ≡ a
scale_ℤ_one a = omega (arith, eq_of_parts (scale_ℤ a 1) a, scale_ℤ_parts a 1)

pub scale_ℤ-+ℤ : (a b : ℤ) (k : ℕ) → scale_ℤ (a +ℤ b) k ≡ scale_ℤ a k +ℤ scale_ℤ b k
scale_ℤ-+ℤ a b k = eq_of_parts _ _ (
    omega (
      arith,
      scale_ℤ_parts (a +ℤ b) k,
      scale_ℤ_parts a k,
      scale_ℤ_parts b k,
      +ℤ_parts (scale_ℤ a k) (scale_ℤ b k),
      ap (λ (t : ℕ). t * k) (+ℤ_parts a b),
    ))

pub scale_ℤ--ℤ : (a b : ℤ) (k : ℕ) → scale_ℤ (a -ℤ b) k ≡ scale_ℤ a k -ℤ scale_ℤ b k
scale_ℤ--ℤ a b k = eq_of_parts _ _ (
    omega (
      arith,
      scale_ℤ_parts (a -ℤ b) k,
      scale_ℤ_parts a k,
      scale_ℤ_parts b k,
      -ℤ_parts (scale_ℤ a k) (scale_ℤ b k),
      ap (λ (t : ℕ). t * k) (-ℤ_parts a b),
    ))

pub scale_ℤ-scale_ℤ : (a : ℤ) (j k : ℕ) → scale_ℤ (scale_ℤ a j) k ≡ scale_ℤ a (j * k)
scale_ℤ-scale_ℤ a j k = eq_of_parts _ _ (
    omega (
      arith,
      ap (λ (t : ℕ). t * k) (scale_ℤ_parts a j).0,
      ap (λ (t : ℕ). t * k) (scale_ℤ_parts a j).1,
      scale_ℤ_parts (scale_ℤ a j) k,
      scale_ℤ_parts a (j * k),
    ))

pub scale_ℤ-neg_ℤ : (a : ℤ) (k : ℕ) → scale_ℤ (neg_ℤ a) k ≡ neg_ℤ (scale_ℤ a k)
scale_ℤ-neg_ℤ a k = eq_of_parts _ _ (
    omega (
      arith,
      ap (λ (t : ℕ). t * k) (neg_ℤ_parts a).0,
      ap (λ (t : ℕ). t * k) (neg_ℤ_parts a).1,
      scale_ℤ_parts (neg_ℤ a) k,
      neg_ℤ_parts (scale_ℤ a k),
      scale_ℤ_parts a k,
    ))

times_of : (k : ℕ) {a b : ℕ} → a ≡ b → a * k ≡ b * k
times_of k e = ap (λ (t : ℕ). t * k) e

pub *ℤ-scale_ℤ : (a b : ℤ) (j k : ℕ) → scale_ℤ a j *ℤ scale_ℤ b k ≡ scale_ℤ (a *ℤ b) (j * k)
*ℤ-scale_ℤ a b j k =
    let (ap, an) = scale_ℤ_parts a j in
    let (bp, bn) = scale_ℤ_parts b k in
    let scaled = rw (ap, an, bp, bn) at (*ℤ_parts (scale_ℤ a j) (scale_ℤ b k)) in
    let plain = times_of (j * k) (*ℤ_parts a b) in
    eq_of_parts _ _ (omega (arith, scaled, plain, scale_ℤ_parts (a *ℤ b) (j * k)))

abbrev pub is_pos : ℤ → Bool
is_pos (pos n) = ltb 0 n
is_pos (negsuc n) = false

abbrev pub is_null : ℤ → Bool
is_null (pos n) = leb n 0
is_null (negsuc n) = false
