-- ===== src/Cloud/CatalogRules/Values.antt =====
-- A canonical decimal has no superfluous zero, and the value of the text it was made from.
use landed_compare.Prelude.{
  ℕ, suc, ◌+◌, ◌-◌, ◌*◌, ◌^◌, ◌≤◌, ◌≡◌, refl, sym, ap, ◌∙◌, false, not, ◌&&◌, some, [], ◌∷◌, ◌++◌,
  ◌==◌, length, Bool-cases, Option-cases, inl, inr, arith,
}
use landed_compare.Prelude.Powers.{pow10_pos}
use native.Mathlib.Omega.{pow_step}
use landed_compare.Cloud.CatalogRules.{
  Text, DecimalMatch, exec_decimal, strip_leading, zero_dropped, strip_trailing, is_zero_text,
  is_empty, written, canonical_of, canonical_decimal,
}
use landed_compare.Cloud.CatalogRules.Laws.{
  Digits, IsMatch, exec_decimal-IsMatch, signed-exec, strip_leading-Digits, strip_trailing-Digits,
  strip_leading-some, some_same, canonical_decimal-canonical_decimal,
}

-- The number that digits continue.
abbrev pub number_from : ℕ → Text → ℕ
number_from n [] = n
number_from n (c ∷ cs) = number_from (n * 10 + (c - b'0')) cs

-- The digits of a decimal without its point.
abbrev pub number : DecimalMatch → ℕ
number m = number_from 0 (m.integer ++ m.fraction)

abbrev pub NoLeadingZero : Text → Type 0
NoLeadingZero (c ∷ d ∷ ds) = (c == b'0') ≡ false
NoLeadingZero _ = Unit

abbrev pub NoTrailingZero : Text → Type 0
NoTrailingZero [] = Unit
NoTrailingZero (c ∷ []) = (c == b'0') ≡ false
NoTrailingZero (c ∷ d ∷ ds) = NoTrailingZero (d ∷ ds)

strip_leading-NoLeadingZero : (ds : Text) → NoLeadingZero (strip_leading ds)
unfolding strip_leading
strip_leading-NoLeadingZero [] = tt
strip_leading-NoLeadingZero (c ∷ []) = tt
strip_leading-NoLeadingZero (c ∷ d ∷ ds) = elim (Bool-cases (c == b'0')) [
  | inl q ↦ rw q (strip_leading-NoLeadingZero (d ∷ ds))
  | inr q ↦ rw q q
]

dropped-NoTrailingZero :
    (c : ℕ) (rest : Text) → NoTrailingZero rest → NoTrailingZero (zero_dropped c rest)
unfolding zero_dropped
dropped-NoTrailingZero c [] h = elim (Bool-cases (c == b'0')) [ inl q ↦ rw q tt | inr q ↦ rw q q ]
dropped-NoTrailingZero c (d ∷ ds) h = h

strip_trailing-NoTrailingZero : (ds : Text) → NoTrailingZero (strip_trailing ds)
unfolding strip_trailing
strip_trailing-NoTrailingZero [] = tt
strip_trailing-NoTrailingZero (c ∷ cs) =
    dropped-NoTrailingZero c (strip_trailing cs) (strip_trailing-NoTrailingZero cs)

number_from-append :
    (n : ℕ) (xs ys : Text) → number_from n (xs ++ ys) ≡ number_from (number_from n xs) ys
number_from-append n [] ys = refl
number_from-append n (x ∷ xs) ys = number_from-append (n * 10 + (x - b'0')) xs ys

number_from-strip_leading : (ds : Text) → number_from 0 (strip_leading ds) ≡ number_from 0 ds
unfolding strip_leading
number_from-strip_leading [] = refl
number_from-strip_leading (c ∷ []) = refl
number_from-strip_leading (c ∷ d ∷ ds) = elim (Bool-cases (c == b'0')) [
  | inl q ↦
      let nothing : c - b'0' ≡ 0 = ground (arith, q) in
      rw (q, nothing) (number_from-strip_leading (d ∷ ds))
  | inr q ↦ rw q refl
]

-- The zeros that are dropped from a fraction, by their count.
abbrev Dropped : Text → Text → Type 0
Dropped ds kept =
    (k : ℕ) × (length ds ≡ length kept + k)
    × ((n : ℕ) → number_from n ds ≡ number_from n kept * 10 ^ k)

tenfold : (n p : ℕ) → (n * 10 + 0) * p ≡ n * (10 * p)
tenfold n p = grind arith

tens :
    (c k : ℕ) (cs : Text)
    → ((n : ℕ) → number_from n cs ≡ n * 10 ^ k)
    → c - b'0' ≡ 0
    → (n : ℕ) → number_from n (c ∷ cs) ≡ n * 10 ^ suc k
tens c k cs val z n = rw (z, val (n * 10 + 0), pow_step 10 k) (tenfold n (10 ^ k))

zero_dropped-Dropped :
    (c : ℕ) (cs rest : Text) → Dropped cs rest → Dropped (c ∷ cs) (zero_dropped c rest)
unfolding zero_dropped
zero_dropped-Dropped c cs [] (k, len, val) = elim (Bool-cases (c == b'0')) [
  | inl q ↦
      let nothing : c - b'0' ≡ 0 = ground (arith, q) in
      rw q (suc k, omega (arith, len), tens c k cs val nothing)
  | inr q ↦ rw q (k, omega (arith, len), λ n. val (n * 10 + (c - b'0')))
]
zero_dropped-Dropped c cs (d ∷ ds) (k, len, val) =
    (k, omega (arith, len), λ n. val (n * 10 + (c - b'0')))

strip_trailing-Dropped : (ds : Text) → Dropped ds (strip_trailing ds)
unfolding strip_trailing
strip_trailing-Dropped [] = (0, refl, λ n. omega arith)
strip_trailing-Dropped (c ∷ cs) =
    zero_dropped-Dropped c cs (strip_trailing cs) (strip_trailing-Dropped cs)

-- Digits that continue a number to 0 are zeros.
number_from-ge : (n : ℕ) (ds : Text) → n ≤ number_from n ds
number_from-ge n [] = omega arith
number_from-ge n (c ∷ cs) = omega (arith, number_from-ge (n * 10 + (c - b'0')) cs)

some_trailing :
    (n c : ℕ) (cs : Text) → Digits (c ∷ cs) → NoTrailingZero (c ∷ cs) → 1 ≤ number_from n (c ∷ cs)
some_trailing n c [] (d, ds) h = ground (arith, d, h)
some_trailing n c (x ∷ xs) (d, ds) h = some_trailing (n * 10 + (c - b'0')) x xs ds h

-- Stripped parts are those of zero, or their number is positive.
zero-IsZero :
    (integer fraction : Text)
    → Digits integer
    → Digits fraction
    → is_empty integer ≡ false
    → NoLeadingZero integer
    → NoTrailingZero fraction
    → (is_zero_text integer && is_empty fraction) ≡ (number_from 0 (integer ++ fraction) == 0)
unfolding is_zero_text is_empty
zero-IsZero [] fraction d f n p q = absurd (cc)
zero-IsZero (c ∷ []) [] (d, ds) f n p q = ground (arith, d)
zero-IsZero (c ∷ []) (x ∷ xs) (d, ds) f n p q =
    ground (arith, some_trailing (0 * 10 + (c - b'0')) x xs f q)
zero-IsZero (c ∷ e ∷ es) fraction (d, ds) f n p q =
    let first : 1 ≤ 0 * 10 + (c - b'0') = ground (arith, d, p) in
    let more = number_from-ge (0 * 10 + (c - b'0')) (e ∷ (es ++ fraction)) in
    ground (arith, first, more)

-- What a match and the match of its canonical text have to do with one another.
pub record CanonicalOf (m c : DecimalMatch) : Type 0 where
  pub no_leading_zero : NoLeadingZero c.integer
  pub no_trailing_zero : NoTrailingZero c.fraction
  pub sign : c.negative ≡ (m.negative && not (number m == 0))
  pub dropped : ℕ
  pub places : length m.fraction ≡ length c.fraction + dropped
  pub value : number m ≡ number c * 10 ^ dropped

number-stripped :
    (integer fraction : Text) (k : ℕ)
    → ((n : ℕ) → number_from n fraction ≡ number_from n (strip_trailing fraction) * 10 ^ k)
    → number_from 0 (integer ++ fraction)
      ≡ number_from 0 (strip_leading integer ++ strip_trailing fraction) * 10 ^ k
number-stripped integer fraction k val =
    number_from-append 0 integer fraction
    ∙ (val (number_from 0 integer)
        ∙ ap (λ z. z * 10 ^ k)
            (ap (λ z. number_from z (strip_trailing fraction))
                (sym (number_from-strip_leading integer))
              ∙ sym (number_from-append 0 (strip_leading integer) (strip_trailing fraction))))

zero_scaled : (n z k : ℕ) → n ≡ z * 10 ^ k → (z == 0) ≡ (n == 0)
zero_scaled n z k h = grind (arith, pow10_pos k)

canonical_of-CanonicalOf :
    (m : DecimalMatch)
    → IsMatch m
    → (c : DecimalMatch) × (exec_decimal (canonical_of m) ≡ some c) × CanonicalOf m c
unfolding canonical_of written
canonical_of-CanonicalOf m parts =
    let integer = strip_leading m.integer in
    let fraction = strip_trailing m.fraction in
    let d = strip_leading-Digits m.integer parts.integer_digits in
    let n = strip_leading-some m.integer parts.some_integer in
    let f = strip_trailing-Digits m.fraction parts.fraction_digits in
    let p = strip_leading-NoLeadingZero m.integer in
    let q = strip_trailing-NoTrailingZero m.fraction in
    let (k, len, val) = strip_trailing-Dropped m.fraction in
    let same = number-stripped m.integer m.fraction k val in
    let kept = m.negative && not (is_zero_text integer && is_empty fraction) in
    (
      record { negative = kept; integer = integer; fraction = fraction },
      signed-exec kept integer fraction d n f,
      record {
        no_leading_zero = p;
        no_trailing_zero = q;
        sign =
            ap (λ z. m.negative && not z)
              (zero-IsZero integer fraction d f n p q
                ∙ zero_scaled (number m) (number_from 0 (integer ++ fraction)) k same);
        dropped = k;
        places = len;
        value = same;
      },
    )

-- A text that has a canonical form is a decimal, and so is that form. It has no zero in front of another
-- digit and no zero at the end of its fraction, its sign is that of the text but for zero, which has
-- none, it has the value of the text, and it is its own canonical form.
pub canonical_decimal-Canonical :
    (value text : Text)
    → canonical_decimal value ≡ some text
    → (m : DecimalMatch) × (c : DecimalMatch) × (exec_decimal value ≡ some m)
      × (exec_decimal text ≡ some c)
      × CanonicalOf m c
      × (canonical_decimal text ≡ some text)
unfolding canonical_decimal
canonical_decimal-Canonical value text h = elim (Option-cases (exec_decimal value)) [
  | inl e ↦ absurd (ground (arith, e, h))
  | inr (m, e) ↦
      let (c, q, canonical) = canonical_of-CanonicalOf m (exec_decimal-IsMatch value m e) in
      let same : canonical_of m ≡ text = some_same (ground (arith, e, h)) in
      (
        m,
        c,
        e,
        ap exec_decimal (sym same) ∙ q,
        canonical,
        canonical_decimal-canonical_decimal value text h,
      )
]
