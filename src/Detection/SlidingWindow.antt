-- ===== src/Detection/SlidingWindow.antt =====
-- slidingWindow of internal/detection/window.go: the circular buffer at timestamps.
pub mod Eviction
use log_analytics_and_anomal.Prelude.{
  ℕ, suc, ◌+◌, ◌≤◌, ◌≡◌, refl, ap, ◌∙◌, Bool, true, false, List, [], ◌∷◌, length, select,
  length-select_le, last_n, if◌then◌else◌, arith, Bool-cases, inl, inr, pos,
}
use log_analytics_and_anomal.Domain.{Time, Duration, zero_time, after, cutoff_at}
use log_analytics_and_anomal.Window.{Window, new_window, add, scan, evict}
use log_analytics_and_anomal.Window.Valid.{IsValid}
use log_analytics_and_anomal.Window.Contents.{contents, length-contents}
use log_analytics_and_anomal.Window.Scan.{fold_newest, scan_lem}
use log_analytics_and_anomal.Window.Evict.{IsAligned, contents-evict}

abbrev pub SlidingWindow : Type 0
SlidingWindow = Window Time

abbrev pub new_sliding_window : ℕ → SlidingWindow
new_sliding_window capacity = new_window zero_time capacity

-- The timestamps that CountWithin(d) counts and Evict(d) keeps, at a reading of the clock.
abbrev pub is_live : Duration → Time → Time → Bool
is_live d now t = after t (cutoff_at now d)

abbrev tally : (Time → Bool) → Time → ℕ → ℕ
tally p t n = if p t then n + 1 else n

unfoldable pub count_within : SlidingWindow → Duration → Time → ℕ
count_within w d now = scan (tally (is_live d now)) zero_time w 0

unfoldable pub evict_older : SlidingWindow → Duration → Time → SlidingWindow
evict_older w older_than now = evict (is_live older_than now) zero_time w

abbrev pub timestamps : SlidingWindow → List Time
timestamps = contents zero_time

fold_newest-tally :
    (p : Time → Bool) (xs : List Time) → fold_newest (tally p) zero_time xs 0 ≡ length (select p xs)
fold_newest-tally p [] = refl
fold_newest-tally p (x ∷ xs) = ground (arith, fold_newest-tally p xs)

-- CountWithin of a well-formed buffer returns the number of held timestamps that lie after the
-- cutoff.
pub count_within_lem :
    {capacity : ℕ} (w : SlidingWindow) (d : Duration) (now : Time)
    → IsValid capacity w
    → count_within w d now ≡ length (select (is_live d now) (timestamps w))
unfolding count_within
count_within_lem w d now v =
    scan_lem (tally (is_live d now)) zero_time w 0 v
    ∙ fold_newest-tally (is_live d now) (timestamps w)
