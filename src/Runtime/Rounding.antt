-- ===== src/Runtime/Rounding.antt =====
-- How much rounding to 53 bits can add to a number.
use log_analytics_and_anomal.Prelude.{
  ℕ, zero, suc, ◌+◌, ◌*◌, ◌/◌, ◌^◌, ◌≤◌, ◌<◌, ◌≡◌, refl, sym, ap, subst, ◌∙◌, ap₂, ℤ, pos, negsuc,
  pos_part, neg_part, ◌+ℤ◌, +ℤ_parts, leb, ◌*ℤ◌, arith,
}
use native.Mathlib.Nat.{
  div-mul-le_self, mul-le-mul_right, div-div-eq-div-mul, pow-succ', one-le-pow,
  lt_of_mul-lt-mul_left, le_of_mul-le-mul_right,
}
use log_analytics_and_anomal.Runtime.Floats.{whole_part, float_mul, round_to, int_of_float}
use log_analytics_and_anomal.Runtime.{shift_for, round_shift, float_of_int, float_ge}
use log_analytics_and_anomal.Domain.{Float64, finite}

pub shift_for-step :
    (fuel a k : ℕ) → shift_for (suc fuel) a ≡ suc k → (2 ^ 53 ≤ a) × (shift_for fuel (a / 2) ≡ k)
unfolding shift_for
shift_for-step fuel a k h = ground arith

-- The shift that is found leaves 52 bits at least.
pub shift_for-large : (fuel a k : ℕ) → shift_for fuel a ≡ suc k → 2 ^ 52 ≤ a / 2 ^ suc k
unfolding shift_for
shift_for-large zero a k h = absurd (omega (arith, h))
shift_for-large (suc fuel) a zero h = omega (arith, (shift_for-step fuel a 0 h).0)
shift_for-large (suc fuel) a (suc k) h =
    let half = shift_for-large fuel (a / 2) k (shift_for-step fuel a (suc k) h).1 in
    subst (λ q. 2 ^ 52 ≤ q)
      (div-div-eq-div-mul a 2 (2 ^ suc k) ∙ ap (λ p. a / p) (sym (pow-succ' 2 (suc k)))) half

round_shift_le_suc : (s a : ℕ) → round_shift (suc s) a ≤ a / 2 ^ suc s + 1
unfolding round_shift
round_shift_le_suc s a = ground arith

round_shift-le :
    (s a : ℕ) → 2 ^ 52 ≤ a / 2 ^ suc s → round_shift (suc s) a * 2 ^ suc s * 32 ≤ 33 * a
round_shift-le s a h =
    let p = 2 ^ suc s in
    let q = a / p in
    let down : q * p ≤ a = div-mul-le_self a p in
    let up : round_shift (suc s) a * p ≤ (q + 1) * p =
      mul-le-mul_right p (round_shift_le_suc s a) in
    let wide : 32 * p ≤ q * p = mul-le-mul_right p (omega (arith, h)) in
    omega (arith, down, up, wide)

rounded-le : (fuel a s : ℕ) → shift_for fuel a ≡ s → round_shift s a * 2 ^ s * 32 ≤ 33 * a
unfolding round_shift
rounded-le fuel a zero h = omega arith
rounded-le fuel a (suc s) h = round_shift-le s a (shift_for-large fuel a s h)

-- Rounding adds a thirty-second at most.
pub round-le : (fuel a : ℕ) → let s = shift_for fuel a in round_shift s a * 2 ^ s * 32 ≤ 33 * a
round-le fuel a = rounded-le fuel a (shift_for fuel a) refl

doubled : (a b : ℕ) → 2 * (a * b) ≡ 2 * a * b
doubled a b = omega arith

pub pow_add : (a b : ℕ) → 2 ^ (a + b) ≡ 2 ^ a * 2 ^ b
pow_add zero b =
    let start : 0 + b ≡ b = omega arith in
    let one : 2 ^ b ≡ 2 ^ 0 * 2 ^ b = omega arith in ap (λ n. 2 ^ n) start ∙ one
pow_add (suc a) b =
    let shifted : suc a + b ≡ suc (a + b) = omega arith in
    let ih = pow_add a b in
    let left : 2 ^ suc (a + b) ≡ 2 * 2 ^ (a + b) = pow-succ' 2 (a + b) in
    let right : 2 ^ suc a ≡ 2 * 2 ^ a = pow-succ' 2 a in
    ap (λ n. 2 ^ n) shifted
    ∙ left
    ∙ ap (λ x. 2 * x) ih
    ∙ doubled (2 ^ a) (2 ^ b)
    ∙ ap (λ x. x * 2 ^ b) (sym right)

cancel : (v r u d k s t : ℕ) → u * k ≡ d * (s * t) → v * d ≤ r * u → 1 ≤ d → v * k ≤ r * t * s
cancel v r u d k s t h cut one =
    let scaled : v * d * k ≤ r * u * k = mul-le-mul_right k cut in
    let same : r * (u * k) ≡ r * (d * (s * t)) = ap (λ x. r * x) h in
    let both : v * k * d ≤ r * t * s * d = omega (arith, scaled, same) in
    le_of_mul-le-mul_right both one

-- A number below a number of natural value times a power of two, whatever the sign of the exponent.
whole_part-le :
    (r s t k : ℕ)
    → let e = pos s +ℤ negsuc k +ℤ pos t in whole_part (pos r) e * 2 ^ suc k ≤ r * 2 ^ t * 2 ^ s
whole_part-le r s t k =
    let e = pos s +ℤ negsuc k +ℤ pos t in
    let up = pos_part e in
    let down = neg_part e in
    let v = whole_part (pos r) e in
    let first = +ℤ_parts (pos s) (negsuc k) in
    let second = +ℤ_parts (pos s +ℤ negsuc k) (pos t) in
    let exponents : up + suc k ≡ down + (s + t) = omega (arith, first, second) in
    let powers : 2 ^ up * 2 ^ suc k ≡ 2 ^ down * (2 ^ s * 2 ^ t) =
      sym (pow_add up (suc k))
      ∙ ap (λ n. 2 ^ n) exponents
      ∙ pow_add down (s + t)
      ∙ ap (λ n. 2 ^ down * n) (pow_add s t) in
    let cut : v * 2 ^ down ≤ (r + 0) * 2 ^ up = div-mul-le_self ((r + 0) * 2 ^ up) (2 ^ down) in
    cancel v r (2 ^ up) (2 ^ down) (2 ^ suc k) (2 ^ s) (2 ^ t) powers (omega (arith, cut))
      (one-le-pow down 2 (omega arith))

float_of_int-le :
    (c : ℕ)
    → (m s : ℕ) × (float_of_int (pos c) ≡ finite (pos m) (pos s)) × (m * 2 ^ s * 32 ≤ 33 * c)
unfolding float_of_int
float_of_int-le c =
    let s = shift_for 64 (c + 0) in
    (round_shift s (c + 0), s, refl, omega (arith, round-le 64 (c + 0)))

round_to-le :
    (m a : ℕ) (e : ℤ)
    → (r t : ℕ) × (round_to (pos m) a e ≡ finite (pos r) (e +ℤ pos t)) × (r * 2 ^ t * 32 ≤ 33 * a)
unfolding round_to
round_to-le m a e = let t = shift_for 128 a in (round_shift t a, t, refl, round-le 128 a)

pub float_mul-natural :
    (m n : ℕ) (e f : ℤ)
    → float_mul (finite (pos m) e) (finite (pos n) f)
      ≡ round_to (pos n) ((m + 0) * (n + 0)) (e +ℤ f)
unfolding float_mul
float_mul-natural m n e f = refl

int_of_float-natural :
    (outside : Float64 → ℤ) (r : ℕ) (e : ℤ)
    → whole_part (pos r) e < 2 ^ 63
    → int_of_float outside (finite (pos r) e) ≡ pos (whole_part (pos r) e)
unfolding int_of_float
int_of_float-natural outside r e h = ground arith

both_roundings :
    (v k r t s m n c : ℕ)
    → v * k ≤ r * t * s
    → r * t * 32 ≤ 33 * (m * n)
    → m * s * 32 ≤ 33 * c
    → v * k * 1024 ≤ 1089 * c * n
both_roundings v k r t s m n c le second first =
    let a : r * t * 32 * s ≤ 33 * (m * n) * s = mul-le-mul_right s second in
    let b : m * s * 32 * n ≤ 33 * c * n = mul-le-mul_right n first in omega (arith, le, a, b)

-- What int64(float64(c) * f) is, for a fraction `f` of a natural number `c`: a natural number that
-- is no more than the product but for what rounding twice adds.
pub fraction-le :
    (outside : Float64 → ℤ) (c m k : ℕ)
    → 1089 * c * m < 2 ^ suc k * 1024 * 2 ^ 63
    → (v : ℕ) × (int_of_float outside (float_mul (float_of_int (pos c)) (finite (pos m) (negsuc k)))
        ≡ pos v)
      × (v * 2 ^ suc k * 1024 ≤ 1089 * c * m)
fraction-le outside c m k h =
    let (m', s, e1, first) = float_of_int-le c in
    let (r, t, e2, second) = round_to-le m ((m' + 0) * (m + 0)) (pos s +ℤ negsuc k) in
    let v = whole_part (pos r) (pos s +ℤ negsuc k +ℤ pos t) in
    let le : v * 2 ^ suc k ≤ r * 2 ^ t * 2 ^ s = whole_part-le r s t k in
    let bound : v * 2 ^ suc k * 1024 ≤ 1089 * c * m =
      both_roundings v (2 ^ suc k) r (2 ^ t) (2 ^ s) m' m c le (omega (arith, second)) first in
    let small : v < 2 ^ 63 = lt_of_mul-lt-mul_left (2 ^ suc k * 1024) (omega (arith, bound, h)) in
    (
      v,
      ap (λ f. int_of_float outside (float_mul f (finite (pos m) (negsuc k)))) e1
          ∙ ap (int_of_float outside) (float_mul-natural m' m (pos s) (negsuc k) ∙ e2)
          ∙ int_of_float-natural outside r _ small,
      bound,
    )

-- A number of 53 bits is a float of its own, and the test on floats is the one on numbers.
shift_for-small : (fuel a : ℕ) → a < 2 ^ 53 → shift_for (suc fuel) a ≡ 0
unfolding shift_for
shift_for-small fuel a h = ground arith

pub float_of_int-small : (n : ℕ) → n < 2 ^ 53 → float_of_int (pos n) ≡ finite (pos n) (pos 0)
unfolding float_of_int round_shift
float_of_int-small n h =
    let same : n + 0 ≡ n = omega arith in
    ap (λ s. finite (pos (round_shift s (n + 0))) (pos s))
      (shift_for-small 63 (n + 0) (omega (arith, h)))
    ∙ ap (λ a. finite (pos a) (pos 0)) same

finite_ge : (a b : ℕ) → float_ge (finite (pos a) (pos 0)) (finite (pos b) (pos 0)) ≡ leb b a
unfolding float_ge ◌*ℤ◌
finite_ge a b = ground arith

pub float_ge-small :
    (a b : ℕ)
    → a < 2 ^ 53
    → b < 2 ^ 53
    → float_ge (float_of_int (pos a)) (float_of_int (pos b)) ≡ leb b a
float_ge-small a b ha hb =
    ap₂ float_ge (float_of_int-small a ha) (float_of_int-small b hb) ∙ finite_ge a b
