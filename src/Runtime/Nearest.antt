-- ===== src/Runtime/Nearest.antt =====
-- Which multiples of its quantum a rounded number reaches: what a float comparison with a tenth needs.
use log_analytics_and_anomal.Prelude.{
  ℕ, zero, suc, ◌+◌, ◌-◌, ◌*◌, ◌/◌, ◌%◌, ◌^◌, ◌≤◌, ◌<◌, ◌≡◌, sym, ap, subst, ◌∙◌, inl, inr,
  Bool-cases, leb, arith,
}
use native.Mathlib.Nat.{
  div-mul-le_self, div-div-eq-div-mul, pow-succ', mul-le-mul_right, div-add-mod', div-lt_iff_lt-mul,
  one-le-pow, pow-le-pow_right, le-div_iff_mul-le,
}
use log_analytics_and_anomal.Runtime.{shift_for, round_shift}
use log_analytics_and_anomal.Runtime.Rounding.{shift_for-large, pow_add}

-- With enough fuel the shift that is found leaves 53 bits at most.
shift_for-narrow : (fuel a : ℕ) → a < 2 ^ 53 * 2 ^ fuel → a / 2 ^ shift_for fuel a < 2 ^ 53
unfolding shift_for
shift_for-narrow zero a h = omega (arith, h)
shift_for-narrow (suc fuel) a h =
    let double : 2 ^ suc fuel ≡ 2 * 2 ^ fuel = pow-succ' 2 fuel in
    let half : a / 2 < 2 ^ 53 * 2 ^ fuel = omega (arith, h, double) in
    let ih = shift_for-narrow fuel (a / 2) half in
    let k = shift_for fuel (a / 2) in
    let same : a / 2 / 2 ^ k ≡ a / 2 ^ suc k =
      div-div-eq-div-mul a 2 (2 ^ k) ∙ ap (λ p. a / p) (sym (pow-succ' 2 k)) in
    ground (arith, subst (λ q. q < 2 ^ 53) same ih)

-- A number that lies less than half a quantum above a multiple is not rounded above that multiple.
round_shift-below : (s a x : ℕ) → a < x * 2 ^ suc s + 2 ^ s → round_shift (suc s) a ≤ x
unfolding round_shift
round_shift-below s a x h =
    let p = 2 ^ suc s in
    let parts : a / p * p + a % p ≡ a = div-add-mod' a p in
    let double : p ≡ 2 * 2 ^ s = pow-succ' 2 s in
    let power : 1 ≤ p = one-le-pow (suc s) 2 (omega arith) in
    let most : a < (x + 1) * p = omega (arith, h, double, power) in
    let reach : a / p < x + 1 = (div-lt_iff_lt-mul power).1 most in
    let low : x ≤ a / p → a % p < 2 ^ s = λ le.
      (let same : x * p ≤ a / p * p = mul-le-mul_right p le in omega (arith, h, parts, same)) in
    ground (arith, reach, low)

-- A number that reaches the multiple after is rounded above.
round_shift-above : (s a x : ℕ) → (x + 1) * 2 ^ s ≤ a → x < round_shift s a
unfolding round_shift
round_shift-above zero a x h = omega (arith, h)
round_shift-above (suc s) a x h =
    let power : 1 ≤ 2 ^ suc s = one-le-pow (suc s) 2 (omega arith) in
    let reach : x + 1 ≤ a / 2 ^ suc s = (le-div_iff_mul-le power).1 h in ground (arith, reach)

-- The float nearest to 0.9 is this number over 2 ^ 53.
abbrev pub nine_tenths : ℕ
nine_tenths = 8106479329266893

-- The comparison, where the product needs no rounding.
reaches-exact :
    (n c : ℕ) → n * nine_tenths < 2 ^ 53 → leb (n * nine_tenths) (c * 2 ^ 53) ≡ leb (9 * n) (10 * c)
reaches-exact n c h = ground arith

shift_small : (s a : ℕ) → 2 ^ 52 * 2 ^ s ≤ a → a < 2 ^ 100 → s < 48
shift_small s a low high = elim (Bool-cases (leb 48 s)) [
  | inl e ↦
      let large : 2 ^ 48 ≤ 2 ^ s = pow-le-pow_right (omega arith) {i = 48} (ground (arith, e)) in
      absurd (omega (arith, low, high, large))
  | inr e ↦ ground (arith, e)
]

reaches-true :
    (s n c x : ℕ)
    → n * nine_tenths < 2 ^ 53 * 2 ^ suc s
    → x * 2 ^ suc s ≡ c * 2 ^ 53
    → 9 * n ≤ 10 * c
    → round_shift (suc s) (n * nine_tenths) ≤ x
reaches-true s n c x narrow quanta h =
    let double : 2 ^ suc s ≡ 2 * 2 ^ s = pow-succ' 2 s in
    round_shift-below s (n * nine_tenths) x (omega (arith, narrow, quanta, double, h))

reaches-false :
    (s n c x : ℕ)
    → 2 ^ suc s ≤ 2 ^ 48
    → x * 2 ^ suc s ≡ c * 2 ^ 53
    → 10 * c < 9 * n
    → x < round_shift (suc s) (n * nine_tenths)
reaches-false s n c x small quanta h =
    round_shift-above (suc s) (n * nine_tenths) x (omega (arith, small, quanta, h))

same_test : (a b c d : ℕ) → (c ≤ d → a ≤ b) → (d < c → b < a) → leb a b ≡ leb c d
same_test a b c d up down = ground (arith, up, down)

quanta_lem : (t c : ℕ) → t ≤ 53 → c * 2 ^ (53 - t) * 2 ^ t ≡ c * 2 ^ 53
quanta_lem t c h =
    let exponents : 53 - t + t ≡ 53 = omega (arith, h) in
    let powers : 2 ^ (53 - t) * 2 ^ t ≡ 2 ^ 53 =
      sym (pow_add (53 - t) t) ∙ ap (λ e. 2 ^ e) exponents in
    let grouped : c * 2 ^ (53 - t) * 2 ^ t ≡ c * (2 ^ (53 - t) * 2 ^ t) = omega arith in
    grouped ∙ ap (λ p. c * p) powers

-- The rounded product with 0.9 is compared as nine tenths of the number are.
pub reaches-rounded :
    (n c t : ℕ)
    → n < 2 ^ 47
    → shift_for 128 (n * nine_tenths) ≡ t
    → (t < 49) × (leb (round_shift t (n * nine_tenths)) (c * 2 ^ (53 - t)) ≡ leb (9 * n) (10 * c))
unfolding round_shift
reaches-rounded n c zero h is_t =
    let narrow : n * nine_tenths / 2 ^ 0 < 2 ^ 53 =
      subst (λ t. n * nine_tenths / 2 ^ t < 2 ^ 53) is_t
        (shift_for-narrow 128 (n * nine_tenths) (omega (arith, h))) in
    (omega arith, reaches-exact n c (omega (arith, narrow)))
reaches-rounded n c (suc s) h is_t =
    let a = n * nine_tenths in
    let p = 2 ^ suc s in
    let power : 1 ≤ p = one-le-pow (suc s) 2 (omega arith) in
    let upper : a / p < 2 ^ 53 =
      subst (λ t. a / 2 ^ t < 2 ^ 53) is_t (shift_for-narrow 128 a (omega (arith, h))) in
    let narrow : a < 2 ^ 53 * p = (div-lt_iff_lt-mul power).0 upper in
    let wide : 2 ^ 52 * p ≤ a / p * p = mul-le-mul_right p (shift_for-large 128 a s is_t) in
    let whole : a / p * p ≤ a = div-mul-le_self a p in
    let low : 2 ^ 52 * p ≤ a = omega (arith, wide, whole) in
    let few : suc s < 48 = shift_small (suc s) a low (omega (arith, h)) in
    let small : p ≤ 2 ^ 48 = omega (arith, low, h) in
    let quanta = quanta_lem (suc s) c (omega (arith, few)) in
    (
      omega (arith, few),
      same_test _ _ _ _ (reaches-true s n c _ narrow quanta) (reaches-false s n c _ small quanta),
    )
