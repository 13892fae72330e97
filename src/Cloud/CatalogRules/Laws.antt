-- ===== src/Cloud/CatalogRules/Laws.antt =====
-- A canonical decimal reads back as itself.
use landed_compare.Prelude.{
  ℕ, ◌≡◌, refl, ap, subst, ◌∙◌, Bool, true, false, not, ◌&&◌, Option, some, [], ◌∷◌, ◌++◌, ◌==◌,
  All, Bool-cases, Option-cases, inl, inr, arith,
}
use landed_compare.Cloud.CatalogRules.{
  Text, is_digit, digits, DecimalMatch, with_fraction, after_integer, exec_decimal, strip_leading,
  zero_dropped, strip_trailing, is_zero_text, is_empty, signed, joined, written, canonical_of,
  canonical_decimal,
}

abbrev pub Digits : Text → Type 0
Digits = All (λ c. is_digit c ≡ true)

pub some_same : {A : Type 0} {a b : A} → ◌≡◌ {A = Option A} (some a) (some b) → a ≡ b
some_same h = cc

digits-Digits : (cs : Text) → Digits (digits cs).0
unfolding digits
digits-Digits [] = tt
digits-Digits (c ∷ cs) = elim (Bool-cases (is_digit c)) [
  | inl e ↦ rw e (e, digits-Digits cs)
  | inr e ↦ rw e tt
]

-- Digits in front of a point, or of the end.
digits-append :
    (ds : Text) (c : ℕ) (rest : Text)
    → Digits ds
    → is_digit c ≡ false
    → digits (ds ++ (c ∷ rest)) ≡ (ds, c ∷ rest)
unfolding digits
digits-append [] c rest h n = rw n refl
digits-append (d ∷ ds) c rest (e, h) n = rw (e, digits-append ds c rest h n) refl

digits-all : (ds : Text) → Digits ds → digits ds ≡ (ds, [])
unfolding digits
digits-all [] h = refl
digits-all (d ∷ ds) (e, h) = rw (e, digits-all ds h) refl

pub strip_leading-Digits : (ds : Text) → Digits ds → Digits (strip_leading ds)
unfolding strip_leading
strip_leading-Digits [] h = tt
strip_leading-Digits (c ∷ []) h = h
strip_leading-Digits (c ∷ d ∷ ds) (e, h) = elim (Bool-cases (c == b'0')) [
  | inl q ↦ rw q (strip_leading-Digits (d ∷ ds) h)
  | inr q ↦ rw q (e, h)
]

strip_leading-strip_leading : (ds : Text) → strip_leading (strip_leading ds) ≡ strip_leading ds
unfolding strip_leading
strip_leading-strip_leading [] = refl
strip_leading-strip_leading (c ∷ []) = refl
strip_leading-strip_leading (c ∷ d ∷ ds) = elim (Bool-cases (c == b'0')) [
  | inl q ↦ rw q (strip_leading-strip_leading (d ∷ ds))
  | inr q ↦ ground (arith, q)
]

dropped-Digits :
    (c : ℕ) (rest : Text) → is_digit c ≡ true → Digits rest → Digits (zero_dropped c rest)
unfolding zero_dropped
dropped-Digits c [] e h = elim (Bool-cases (c == b'0')) [ inl q ↦ rw q tt | inr q ↦ rw q (e, tt) ]
dropped-Digits c (d ∷ ds) e h = (e, h)

dropped-again :
    (c : ℕ) (rest : Text)
    → strip_trailing rest ≡ rest
    → strip_trailing (zero_dropped c rest) ≡ zero_dropped c rest
unfolding strip_trailing
dropped-again c [] h = elim (Bool-cases (c == b'0')) [ inl q ↦ rw q refl | inr q ↦ rw (q, q) refl ]
dropped-again c (d ∷ ds) h = ap (zero_dropped c) h

pub strip_trailing-Digits : (ds : Text) → Digits ds → Digits (strip_trailing ds)
unfolding strip_trailing
strip_trailing-Digits [] h = tt
strip_trailing-Digits (c ∷ cs) (e, h) =
    dropped-Digits c (strip_trailing cs) e (strip_trailing-Digits cs h)

strip_trailing-strip_trailing : (ds : Text) → strip_trailing (strip_trailing ds) ≡ strip_trailing ds
unfolding strip_trailing
strip_trailing-strip_trailing [] = refl
strip_trailing-strip_trailing (c ∷ cs) =
    dropped-again c (strip_trailing cs) (strip_trailing-strip_trailing cs)

-- The parts of a match: an integer part with a digit, and only digits.
pub record IsMatch (m : DecimalMatch) : Type 0 where
  pub integer_digits : Digits m.integer
  pub fraction_digits : Digits m.fraction
  pub some_integer : is_empty m.integer ≡ false

with_fraction-IsMatch :
    (negative : Bool) (integer : Text) (parts : Text × Text) (m : DecimalMatch)
    → Digits integer
    → is_empty integer ≡ false
    → Digits parts.0
    → with_fraction negative integer parts ≡ some m
    → IsMatch m
unfolding with_fraction
with_fraction-IsMatch negative integer ([], rest) m d n f h = absurd (cc)
with_fraction-IsMatch negative integer (d ∷ ds, c ∷ cs) m dd n f h = absurd (cc)
with_fraction-IsMatch negative integer (d ∷ ds, []) m dd n f h =
    subst IsMatch (some_same h)
      (record { integer_digits = dd; fraction_digits = f; some_integer = n })

after_integer-IsMatch :
    (negative : Bool) (parts : Text × Text) (m : DecimalMatch)
    → Digits parts.0
    → after_integer negative parts ≡ some m
    → IsMatch m
unfolding after_integer is_empty
after_integer-IsMatch negative ([], rest) m d h = absurd (cc)
after_integer-IsMatch negative (d ∷ ds, []) m dd h =
    subst IsMatch (some_same h)
      (record { integer_digits = dd; fraction_digits = tt; some_integer = refl })
after_integer-IsMatch negative (d ∷ ds, c ∷ cs) m dd h = elim (Bool-cases (c == b'.')) [
  | inl e ↦
      with_fraction-IsMatch negative (d ∷ ds) (digits cs) m dd refl (digits-Digits cs)
        (ground (arith, e, h))
  | inr e ↦ absurd (ground (arith, e, h))
]

pub exec_decimal-IsMatch :
    (value : Text) (m : DecimalMatch) → exec_decimal value ≡ some m → IsMatch m
unfolding exec_decimal
exec_decimal-IsMatch [] m h = absurd (cc)
exec_decimal-IsMatch (c ∷ cs) m h = elim (Bool-cases (c == b'-')) [
  | inl e ↦ after_integer-IsMatch true (digits cs) m (digits-Digits cs) (ground (arith, e, h))
  | inr e ↦
      after_integer-IsMatch false (digits (c ∷ cs)) m (digits-Digits (c ∷ cs))
        (ground (arith, e, h))
]

-- The digits of a written number are read back.
joined-exec :
    (negative : Bool) (integer fraction : Text)
    → Digits integer
    → is_empty integer ≡ false
    → Digits fraction
    → after_integer negative (digits (joined integer fraction))
      ≡ some (record { negative = negative; integer = integer; fraction = fraction })
unfolding joined after_integer is_empty
joined-exec negative [] fraction d n f = absurd (cc)
joined-exec negative (i ∷ is) [] d n f = rw (digits-all (i ∷ is) d, after_integer) refl
joined-exec negative (i ∷ is) (x ∷ xs) d n f =
    rw (digits-append (i ∷ is) b'.' (x ∷ xs) d refl, after_integer)
      (rw (digits-all (x ∷ xs) f, with_fraction) refl)

not_minus : (c : ℕ) → is_digit c ≡ true → (c == b'-') ≡ false
not_minus c h = ground (arith, h)

pub signed-exec :
    (negative : Bool) (integer fraction : Text)
    → Digits integer
    → is_empty integer ≡ false
    → Digits fraction
    → exec_decimal (signed negative (joined integer fraction))
      ≡ some (record { negative = negative; integer = integer; fraction = fraction })
unfolding exec_decimal signed is_empty joined
signed-exec true integer fraction d n f = joined-exec true integer fraction d n f
signed-exec false [] fraction d n f = absurd (cc)
signed-exec false (i ∷ is) [] d n f = rw (not_minus i d.0) (joined-exec false (i ∷ is) [] d n f)
signed-exec false (i ∷ is) (x ∷ xs) d n f =
    rw (not_minus i d.0) (joined-exec false (i ∷ is) (x ∷ xs) d n f)

pub strip_leading-some : (ds : Text) → is_empty ds ≡ false → is_empty (strip_leading ds) ≡ false
unfolding strip_leading is_empty
strip_leading-some [] h = h
strip_leading-some (c ∷ []) h = refl
strip_leading-some (c ∷ d ∷ ds) h = elim (Bool-cases (c == b'0')) [
  | inl q ↦ rw q (strip_leading-some (d ∷ ds) refl)
  | inr q ↦ rw q refl
]

and_again : (a b : Bool) → ((a && b) && b) ≡ (a && b)
and_again true true = refl
and_again true false = refl
and_again false b = refl

canonical_at :
    (value : Text) (m : DecimalMatch)
    → exec_decimal value ≡ some m
    → canonical_decimal value ≡ some (canonical_of m)
unfolding canonical_decimal
canonical_at value m e = rw (e, canonical_decimal) refl

written-again :
    (negative : Bool) (integer fraction : Text)
    → Digits integer
    → is_empty integer ≡ false
    → Digits fraction
    → strip_leading integer ≡ integer
    → strip_trailing fraction ≡ fraction
    → canonical_decimal (written negative integer fraction)
      ≡ some (written negative integer fraction)
unfolding canonical_decimal canonical_of written
written-again negative integer fraction d n f p q =
    let keeps = not (is_zero_text integer && is_empty fraction) in
    let kept = negative && keeps in
    canonical_at (written negative integer fraction) _ (signed-exec kept integer fraction d n f)
    ∙ ap some (
        ap (λ x. written kept x (strip_trailing fraction)) p
        ∙ (ap (written kept integer) q
            ∙ ap (λ s. signed s (joined integer fraction)) (and_again negative keeps)))

-- The canonical text of a decimal is a decimal, and its own canonical text.
pub canonical_decimal-canonical_decimal :
    (value text : Text) → canonical_decimal value ≡ some text → canonical_decimal text ≡ some text
unfolding canonical_decimal canonical_of
canonical_decimal-canonical_decimal value text h = elim (Option-cases (exec_decimal value)) [
  | inl e ↦ absurd (ground (arith, e, h))
  | inr (m, e) ↦
      let parts = exec_decimal-IsMatch value m e in
      let same : written m.negative (strip_leading m.integer) (strip_trailing m.fraction) ≡ text =
        some_same (ground (arith, e, h)) in
      subst (λ t. canonical_decimal t ≡ some t) same
        (written-again m.negative (strip_leading m.integer) (strip_trailing m.fraction)
          (strip_leading-Digits m.integer parts.integer_digits)
          (strip_leading-some m.integer parts.some_integer)
          (strip_trailing-Digits m.fraction parts.fraction_digits)
          (strip_leading-strip_leading m.integer) (strip_trailing-strip_trailing m.fraction))
]
