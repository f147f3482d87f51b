-- ===== src/Detection/SlidingWindow/Eviction.antt =====
-- What `Evict` of internal/detection/window.go means for later counts, and where it fails.
use log_analytics_and_anomal.Prelude.{
  ℕ, ◌≡◌, refl, sym, ap, ◌∙◌, true, [], ◌∷◌, length, select, select-select, arith, ◌≤ℤ◌, -ℤ_parts,
}
use log_analytics_and_anomal.Domain.{Time, Duration, zero_time}
use log_analytics_and_anomal.Window.{new_window, add, evict, evict_loop}
use log_analytics_and_anomal.Window.Valid.{IsValid, evict-IsValid}
use log_analytics_and_anomal.Window.Evict.{IsAligned, contents-evict}
use log_analytics_and_anomal.Detection.SlidingWindow.{
  SlidingWindow, new_sliding_window, is_live, count_within, evict_older, timestamps,
  count_within_lem,
}

-- What is live later was live before.
pub is_live-later :
    (d : Duration) (early late : Time) (t : Time)
    → early ≤ℤ late
    → is_live d late t ≡ true
    → is_live d early t ≡ true
is_live-later d early late t h live = ground (arith, -ℤ_parts early d, -ℤ_parts late d)

-- Evicting a well-formed buffer whose oldest entry stands in slot 0 changes no count over the same
-- duration at the same or a later reading of the clock.
pub count_within-evict_older :
    {capacity : ℕ} (w : SlidingWindow) (d : Duration) (early late : Time)
    → IsValid capacity w
    → IsAligned w
    → early ≤ℤ late
    → count_within (evict_older w d early) d late ≡ count_within w d late
unfolding evict_older
count_within-evict_older w d early late v al h =
    count_within_lem _ d late (evict-IsValid (is_live d early) zero_time w v)
    ∙ ap (λ ts. length (select (is_live d late) ts))
        (contents-evict (is_live d early) zero_time w v al)
    ∙ ap length (
        select-select (is_live d late) (is_live d early) (timestamps w)
          (λ t. is_live-later d early late t h))
    ∙ sym (count_within_lem w d late v)

-- A new buffer of two slots that was given three timestamps holds the last two; if both are live,
-- Evict loses the newer one and leaves the older one there twice.
pub evict_older_loses_newest :
    (a b c : Time) (d : Duration) (now : Time)
    → is_live d now b ≡ true
    → is_live d now c ≡ true
    → (timestamps (add (add (add (new_sliding_window 2) a) b) c) ≡ b ∷ c ∷ [])
      × (timestamps (evict_older (add (add (add (new_sliding_window 2) a) b) c) d now) ≡ b ∷ b ∷ [])
unfolding evict_older evict evict_loop add new_window
evict_older_loses_newest a b c d now lb lc = (refl, rw (lb, lb))
