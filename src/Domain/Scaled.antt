-- ===== src/Domain/Scaled.antt =====
-- Decimals as whole numbers over a power of ten: values for which the documented behaviour of
-- `decimal.js` is proved, so that it can be met.
pub mod Text
pub mod Laws
use landed_compare.Prelude.{
  ℕ, zero, suc, ◌+◌, ◌-◌, ◌*◌, ◌/◌, ◌%◌, ◌^◌, max, ltb, if◌then◌else◌, Bool, true, Option, some,
  none, String, Ordering,
}
use landed_compare.Prelude.Int.{
  ℤ, pos, negsuc, ◌+ℤ◌, ◌-ℤ◌, ◌*ℤ◌, neg_ℤ, magnitude, is_neg, is_null, compare_ℤ, scale_ℤ,
  on_magnitude,
}
use landed_compare.Domain.DecimalJs.{DecimalJs, Rounding, half_up, down, round_units}
use landed_compare.Domain.Scaled.Text.{Scaled, parse, print}

abbrev pub at_scale : ℕ → Scaled → ℤ
at_scale s d = scale_ℤ d.units (10 ^ (s - d.places))

abbrev pub common : (ℤ → ℤ → ℤ) → Scaled → Scaled → Scaled
common op a b =
    let s = max a.places b.places in record { units = op (at_scale s a) (at_scale s b); places = s }

-- The number of decimal digits, at least one.
abbrev pub digit_count : ℕ → ℕ → ℕ
digit_count zero n = 1
digit_count (suc f) n = let rest = digit_count f (n / 10) in if ltb n 10 then 1 else suc rest

abbrev pub digits_of : Scaled → ℕ
digits_of d = digit_count (magnitude d.units) (magnitude d.units)

-- `e`, which is one less than the number of digits in front of the point.
abbrev pub exponent_of : Scaled → ℤ
exponent_of d = pos (digits_of d) -ℤ pos (suc d.places)

unfoldable pub round_scaled : ℕ → Rounding → Scaled → Scaled
round_scaled m r d =
    let s = max m d.places in
    record { units = on_magnitude (round_units r (10 ^ (s - m))) (at_scale s d); places = m }

-- A quotient to `extra` more places than its operands have, cut off there.
unfoldable pub extra : ℕ
extra = 40

unfoldable pub divide : Scaled → Scaled → Scaled
unfolding extra
divide a b = record {
  units =
      on_magnitude (λ n. n * 10 ^ (extra + b.places) / magnitude b.units)
        (if is_neg b.units then neg_ℤ a.units else a.units);
  places = a.places + extra;
}

unfoldable pub ceil_scaled : Scaled → Scaled
ceil_scaled d = record {
  units = elim d.units [
    | pos n ↦ pos ((n + 10 ^ d.places - 1) / 10 ^ d.places)
    | negsuc n ↦ on_magnitude (λ k. k / 10 ^ d.places) (negsuc n)
  ];
  places = 0;
}

unfoldable pub power : Scaled → ℕ → Scaled
power d zero = record { units = pos 1; places = 0 }
power d (suc n) =
    let p = power d n in record { units = d.units *ℤ p.units; places = d.places + p.places }

instance abbrev pub scaled_js : DecimalJs Scaled
scaled_js = record {
  of_text = parse;
  of_number = λ n. record { units = pos n; places = 0 };
  is_finite = λ _. true;
  plus = λ p. common ◌+ℤ◌;
  minus = λ p. common ◌-ℤ◌;
  times = λ p a b. record { units = a.units *ℤ b.units; places = a.places + b.places };
  divided_by = λ p. divide;
  to_power = λ p. power;
  to_decimal_places = round_scaled;
  ceil = ceil_scaled;
  compared_to = λ a b. let s = max a.places b.places in compare_ℤ (at_scale s a) (at_scale s b);
  is_zero = λ d. is_null d.units;
  is_negative = λ d. is_neg d.units;
  abs = λ d. record { units = pos (magnitude d.units); places = d.places };
  negated = λ d. record { units = neg_ℤ d.units; places = d.places };
  exponent = exponent_of;
  precision = digits_of;
  decimal_places = λ d. d.places;
  to_fixed = print;
  to_fixed_at = λ n d. print d;
}
