-- ===== src/Tools/EndToEnd/Shares.antt =====
-- The float comparison with nine tenths of what was sent, of cmd/e2etest/main.go.
use log_analytics_and_anomal.Prelude.{
  ℕ, suc, ◌+◌, ◌-◌, ◌*◌, ◌^◌, ◌<◌, ◌≡◌, refl, ap, ap₂, ◌∙◌, ℤ, pos, negsuc, ◌+ℤ◌, ◌-ℤ◌, ◌*ℤ◌, leb,
  arith,
}
use log_analytics_and_anomal.Domain.{finite}
use log_analytics_and_anomal.Runtime.{shift_for, round_shift, float_of_int, float_ge}
use log_analytics_and_anomal.Runtime.Floats.{float_mul, float_div, round_to}
use log_analytics_and_anomal.Runtime.Rounding.{float_mul-natural, float_of_int-small}
use log_analytics_and_anomal.Runtime.Nearest.{nine_tenths, reaches-rounded}
use log_analytics_and_anomal.Tools.LoadTest.Run.{tenths}
use log_analytics_and_anomal.Tools.EndToEnd.Drain.{most_of}

nine : tenths 9 ≡ finite (pos nine_tenths) (negsuc 52)
unfolding tenths float_div round_to float_of_int shift_for round_shift ◌+ℤ◌ ◌-ℤ◌
nine = refl

round_to-at :
    (m a t : ℕ) (e : ℤ)
    → shift_for 128 a ≡ t
    → round_to (pos m) a e ≡ finite (pos (round_shift t a)) (e +ℤ pos t)
unfolding round_to
round_to-at m a t e h = ap (λ k. finite (pos (round_shift k a)) (e +ℤ pos k)) h

exponent_lem : (t : ℕ) → t < 49 → pos 0 +ℤ negsuc 52 +ℤ pos t ≡ negsuc (52 - t)
unfolding ◌+ℤ◌
exponent_lem t h = ground arith

ge-scaled :
    (c r k : ℕ)
    → float_ge (finite (pos c) (pos 0)) (finite (pos r) (negsuc k)) ≡ leb r (c * 2 ^ suc k)
unfolding float_ge ◌*ℤ◌
ge-scaled c r k = ground arith

product_lem :
    (n t : ℕ)
    → n < 2 ^ 53
    → t < 49
    → shift_for 128 (n * nine_tenths) ≡ t
    → float_mul (float_of_int (pos n)) (tenths 9)
      ≡ finite (pos (round_shift t (n * nine_tenths))) (negsuc (52 - t))
product_lem n t small few h =
    let same : (n + 0) * (nine_tenths + 0) ≡ n * nine_tenths = omega arith in
    ap₂ float_mul (float_of_int-small n small) nine
    ∙ float_mul-natural n nine_tenths (pos 0) (negsuc 52)
    ∙ ap (λ a. round_to (pos nine_tenths) a (pos 0 +ℤ negsuc 52)) same
    ∙ round_to-at nine_tenths (n * nine_tenths) t _ h
    ∙ ap (finite (pos (round_shift t (n * nine_tenths)))) (exponent_lem t few)

-- float64(cur) >= float64(totalSent)*0.9 for fewer than 2^47 messages: nine tenths of them, exactly.
pub most_of_exact :
    (n c : ℕ) → n < 2 ^ 47 → c < 2 ^ 53 → most_of (pos n) (pos c) ≡ leb (9 * n) (10 * c)
most_of_exact n c h small =
    let t = shift_for 128 (n * nine_tenths) in
    let (few, same) = reaches-rounded n c t h refl in
    let room : suc (52 - t) ≡ 53 - t = omega (arith, few) in
    ap₂ float_ge (float_of_int-small c small) (product_lem n t (omega (arith, h)) few refl)
    ∙ ge-scaled c (round_shift t (n * nine_tenths)) (52 - t)
    ∙ ap (λ k. leb (round_shift t (n * nine_tenths)) (c * 2 ^ k)) room
    ∙ same
