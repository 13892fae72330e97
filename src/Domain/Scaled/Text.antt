-- ===== src/Domain/Scaled/Text.antt =====
-- Reading and printing of scaled numbers.
use landed_compare.Prelude.{
  ℕ, zero, suc, ◌+◌, ◌-◌, ◌*◌, ◌/◌, ◌%◌, ◌≤◌, ◌<◌, ◌≡◌, refl, ◌∙◌, ap, ltb, ◌==◌, if◌then◌else◌,
  Bool, false, Option, some, none, List, [], ◌∷◌, String, arith, Bool-cases, inl, inr,
}
use landed_compare.Prelude.Int.{ℤ, pos, negsuc, magnitude}
use landed_compare.Prelude.Text.{code_points, between, is_blank}
use Prim.Native.Char.{Char, code}

pub record Scaled : Type 0 where
  pub units : ℤ
  pub places : ℕ

digit_char : ℕ → Char
digit_char zero = "0"
digit_char (suc zero) = "1"
digit_char (suc (suc zero)) = "2"
digit_char (suc (suc (suc zero))) = "3"
digit_char (suc (suc (suc (suc zero)))) = "4"
digit_char (suc (suc (suc (suc (suc zero))))) = "5"
digit_char (suc (suc (suc (suc (suc (suc zero)))))) = "6"
digit_char (suc (suc (suc (suc (suc (suc (suc zero))))))) = "7"
digit_char (suc (suc (suc (suc (suc (suc (suc (suc zero)))))))) = "8"
digit_char _ = "9"

code-digit_char : (d : ℕ) → d < 10 → code (digit_char d) ≡ 48 + d
unfolding digit_char
code-digit_char zero h = refl
code-digit_char (suc zero) h = refl
code-digit_char (suc (suc zero)) h = refl
code-digit_char (suc (suc (suc zero))) h = refl
code-digit_char (suc (suc (suc (suc zero)))) h = refl
code-digit_char (suc (suc (suc (suc (suc zero))))) h = refl
code-digit_char (suc (suc (suc (suc (suc (suc zero)))))) h = refl
code-digit_char (suc (suc (suc (suc (suc (suc (suc zero))))))) h = refl
code-digit_char (suc (suc (suc (suc (suc (suc (suc (suc zero)))))))) h = refl
code-digit_char (suc (suc (suc (suc (suc (suc (suc (suc (suc zero))))))))) h = refl
code-digit_char (suc (suc (suc (suc (suc (suc (suc (suc (suc (suc n)))))))))) h =
    absurd (omega arith)

-- The digits of a number, in front of a text.
print_digits : ℕ → ℕ → String → String
unfolding digit_char
print_digits zero n rest = String.◌∷◌ (digit_char (n % 10)) rest
print_digits (suc f) n rest =
    let more = print_digits f (n / 10) (String.◌∷◌ (digit_char (n % 10)) rest) in
    if ltb n 10 then String.◌∷◌ (digit_char (n % 10)) rest else more

sign_char : ℤ → Char
sign_char (pos n) = "+"
sign_char (negsuc n) = "-"

unfoldable pub print : Scaled → String
unfolding print_digits sign_char
print d = String.◌∷◌ (sign_char d.units) (
    print_digits (magnitude d.units) (magnitude d.units)
      (String.◌∷◌ "e" (String.◌∷◌ "-" (print_digits d.places d.places String.[]))))

is_digit : ℕ → Bool
is_digit = between 48 57

read_places : ℕ → ℕ → List ℕ → Option (ℕ × ℕ)
read_places n k [] = some (n, k)
read_places n k (c ∷ cs) = if is_digit c then read_places n (k * 10 + (c - 48)) cs else none

read_exponent : ℕ → List ℕ → Option (ℕ × ℕ)
read_exponent n (c ∷ cs) = if c == b'-' then read_places n 0 cs else none
read_exponent n [] = none

read_fraction : ℕ → ℕ → List ℕ → Option (ℕ × ℕ)
read_fraction n k [] = some (n, k)
read_fraction n k (c ∷ cs) =
    if is_digit c then read_fraction (n * 10 + (c - 48)) (suc k) cs else none

read_whole : ℕ → List ℕ → Option (ℕ × ℕ)
read_whole n [] = some (n, 0)
read_whole n (c ∷ cs) =
    let more = read_whole (n * 10 + (c - 48)) cs in
    if is_digit c
    then more
    else if c == b'.'
    then read_fraction n 0 cs
    else if c == b'e'
    then read_exponent n cs
    else none

positive : Option (ℕ × ℕ) → Option Scaled
positive none = none
positive (some (n, k)) = some (record { units = pos n; places = k })

minus : ℕ → ℤ
minus zero = pos zero
minus (suc n) = negsuc n

negative : Option (ℕ × ℕ) → Option Scaled
negative none = none
negative (some (n, k)) = some (record { units = minus n; places = k })

read_signed : List ℕ → Option Scaled
read_signed [] = none
read_signed (c ∷ cs) =
    if c == b'+'
    then positive (read_whole 0 cs)
    else if c == b'-'
    then negative (read_whole 0 cs)
    else positive (read_whole 0 (c ∷ cs))

unfoldable pub parse : String → Option Scaled
unfolding read_signed positive negative minus read_whole read_fraction read_exponent read_places
    is_digit
parse text = read_signed (code_points text)

-- A reader that takes a digit at a time reads what `print_digits` prints.
module _ {A : Type 0} (read : ℕ → List ℕ → A)
    (step : (n d : ℕ) (rest : String)
      → d < 10
      → read n (code_points (String.◌∷◌ (digit_char d) rest))
        ≡ read (n * 10 + d) (code_points rest)) where
  read-print :
      (f n : ℕ) (rest : String)
      → n ≤ f
      → read 0 (code_points (print_digits f n rest)) ≡ read n (code_points rest)
  unfolding print_digits
  read-print f n rest h = go f n rest h
    where
      same :
          (t n : ℕ) (rest : String) → t ≡ n → read t (code_points rest) ≡ read n (code_points rest)
      same t n rest e = ap (λ (t : ℕ). read t (code_points rest)) e

      last :
          (n : ℕ) (rest : String)
          → n < 10
          → read 0 (code_points (String.◌∷◌ (digit_char (n % 10)) rest)) ≡ read n (code_points rest)
      last n rest lt = step 0 (n % 10) rest (omega arith) ∙ same _ n rest (omega arith)

      go :
          (f n : ℕ) (rest : String)
          → n ≤ f
          → read 0 (code_points (print_digits f n rest)) ≡ read n (code_points rest)
      go zero n rest h = last n rest (omega arith)
      go (suc f) n rest h = elim (Bool-cases (ltb n 10)) [
        | inl e ↦ rw e (last n rest (ground arith))
        | inr e ↦ rw e (
            go f (n / 10) (String.◌∷◌ (digit_char (n % 10)) rest) (omega arith)
            ∙ step (n / 10) (n % 10) rest (omega arith)
            ∙ same _ n rest (omega arith))
      ]

read_whole-digit :
    (n d : ℕ) (rest : String)
    → d < 10
    → read_whole n (code_points (String.◌∷◌ (digit_char d) rest))
      ≡ read_whole (n * 10 + d) (code_points rest)
unfolding read_whole is_digit
read_whole-digit n d rest h =
    let e : n * 10 + (48 + d - 48) ≡ n * 10 + d = omega arith in
    rw (code-digit_char d h) (ground (arith, ap (λ (t : ℕ). read_whole t (code_points rest)) e))

read_places-digit :
    (n k d : ℕ) (rest : String)
    → d < 10
    → read_places n k (code_points (String.◌∷◌ (digit_char d) rest))
      ≡ read_places n (k * 10 + d) (code_points rest)
unfolding read_places is_digit
read_places-digit n k d rest h =
    let e : k * 10 + (48 + d - 48) ≡ k * 10 + d = omega arith in
    rw (code-digit_char d h) (ground (arith, ap (λ (t : ℕ). read_places n t (code_points rest)) e))

read_whole-number :
    (n k : ℕ)
    → read_whole 0 (
        code_points
          (print_digits n n (String.◌∷◌ "e" (String.◌∷◌ "-" (print_digits k k String.[])))))
      ≡ some (n, k)
unfolding read_whole read_exponent is_digit read_places
read_whole-number n k =
    read-print read_whole read_whole-digit n n _ (omega arith)
    ∙ read-print (read_places n) (read_places-digit n) k k String.[] (omega arith)

parse-print_parts :
    (u : ℤ) (k : ℕ)
    → parse (print (record { units = u; places = k })) ≡ some (record { units = u; places = k })
unfolding parse print sign_char read_signed positive negative minus
parse-print_parts (pos n) k = ap positive (read_whole-number n k)
parse-print_parts (negsuc n) k = ap negative (read_whole-number (suc n) k)

-- What is printed is read back.
pub parse-print : (d : Scaled) → parse (print d) ≡ some d
parse-print d = parse-print_parts d.units d.places

pub is_blank-print : (d : Scaled) → is_blank (print d) ≡ false
unfolding print sign_char
is_blank-print d = go d.units d.places
  where
    go : (u : ℤ) (k : ℕ) → is_blank (print (record { units = u; places = k })) ≡ false
    go (pos n) k = refl
    go (negsuc n) k = refl
