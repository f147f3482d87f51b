-- ===== src/Runtime/Floats.antt =====
-- float64: products, quotients and the conversion to int64. A result is rounded to 53 bits, to even
-- on a tie; the range of the exponent is not modelled, as no number of the code comes near its ends.
use log_analytics_and_anomal.Prelude.{
  ℕ, zero, suc, ◌+◌, ◌*◌, ◌/◌, ◌%◌, ◌^◌, ◌==◌, ℤ, pos, negsuc, pos_part, neg_part, ◌+ℤ◌, ◌-ℤ◌,
  if◌then◌else◌, ltb,
}
use log_analytics_and_anomal.Domain.{Float64, finite, pos_inf, neg_inf, nan}
use log_analytics_and_anomal.Runtime.{shift_for, round_shift, with_sign}

abbrev magnitude : ℤ → ℕ
magnitude n = pos_part n + neg_part n

-- The sign of a product or a quotient: a number of that sign, or of the opposite one.
abbrev signed : ℤ → ℤ → ℤ
signed (pos n) b = b
signed (negsuc n) (pos m) = negsuc m
signed (negsuc n) (negsuc m) = pos m

-- A number of at most 181 bits times two to `e`, rounded, with the sign of `sign`.
unfoldable pub round_to : ℤ → ℕ → ℤ → Float64
round_to sign a e =
    let s = shift_for 128 a in finite (with_sign sign (round_shift s a)) (e +ℤ pos s)

abbrev opposite : Float64 → Float64
opposite pos_inf = neg_inf
opposite neg_inf = pos_inf
opposite f = f

-- An infinity times a finite number.
abbrev times_inf : Float64 → ℤ → Float64
times_inf f (pos zero) = nan
times_inf f (pos (suc n)) = f
times_inf f (negsuc n) = opposite f

unfoldable pub float_mul : Float64 → Float64 → Float64
float_mul nan _ = nan
float_mul (finite m e) (finite n f) = round_to (signed m n) (magnitude m * magnitude n) (e +ℤ f)
float_mul (finite m e) nan = nan
float_mul (finite m e) pos_inf = times_inf pos_inf m
float_mul (finite m e) neg_inf = times_inf neg_inf m
float_mul pos_inf nan = nan
float_mul pos_inf (finite n f) = times_inf pos_inf n
float_mul pos_inf g = g
float_mul neg_inf nan = nan
float_mul neg_inf (finite n f) = times_inf neg_inf n
float_mul neg_inf g = opposite g

-- A quotient by a number that is not zero: at least 57 bits of it and, below them, one that says
-- whether anything is left.
abbrev quotient_bits : ℕ → ℕ → ℕ
quotient_bits a b = let scaled = a * 2 ^ 110 in scaled / b * 2 + (if scaled % b == 0 then 0 else 1)

-- A finite number over zero.
abbrev over_zero : ℤ → Float64
over_zero (pos zero) = nan
over_zero (pos (suc n)) = pos_inf
over_zero (negsuc n) = neg_inf

abbrev over_finite : ℤ → ℤ → ℤ → ℤ → Float64
over_finite m e (pos zero) f = over_zero m
over_finite m e n f =
    round_to (signed m n) (quotient_bits (magnitude m) (magnitude n)) (e -ℤ f -ℤ pos 111)

abbrev inf_over : Float64 → ℤ → Float64
inf_over f (pos n) = f
inf_over f (negsuc n) = opposite f

unfoldable pub float_div : Float64 → Float64 → Float64
float_div nan _ = nan
float_div (finite m e) (finite n f) = over_finite m e n f
float_div (finite m e) nan = nan
float_div (finite m e) g = finite (pos 0) (pos 0)
float_div pos_inf (finite n f) = inf_over pos_inf n
float_div pos_inf g = nan
float_div neg_inf (finite n f) = inf_over neg_inf n
float_div neg_inf g = nan

-- The magnitude of a finite number, without what is behind its point.
abbrev pub whole_part : ℤ → ℤ → ℕ
whole_part m e = magnitude m * 2 ^ pos_part e / 2 ^ neg_part e

abbrev within_int64 : ℤ → ℤ → ℤ
within_int64 (pos n) other = if ltb n (2 ^ 63) then pos n else other
within_int64 (negsuc n) other = if ltb n (2 ^ 63) then negsuc n else other

-- int64(f), and int(f). Out of range Go leaves the result to the implementation: the first argument.
unfoldable pub int_of_float : (Float64 → ℤ) → Float64 → ℤ
int_of_float outside (finite m e) =
    within_int64 (with_sign m (whole_part m e)) (outside (finite m e))
int_of_float outside f = outside f
