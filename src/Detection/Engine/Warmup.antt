-- ===== src/Detection/Engine/Warmup.antt =====
-- The warm-up period of DetectorEngine.
use log_analytics_and_anomal.Prelude.{
  subst, ℕ, ◌*◌, ◌^◌, ◌≤◌, ◌<◌, ◌≡◌, ap, ap₂, ◌∙◌, true, false, List, ℤ, pos, ◌+ℤ◌, ◌*ℤ◌, ◌≤ℤ◌,
  +ℤ_parts, wrap64, wrap64_of_lt, int_mul_pos, arith, Text,
}
use log_analytics_and_anomal.Domain.{Time, Duration, LogEntry, before}
use log_analytics_and_anomal.Runtime.{Runtime}
use log_analytics_and_anomal.Detection.Config.{DetectionConfig, Moment}
use log_analytics_and_anomal.Detection.Engine.{
  DetectorEngine, Reading, max_of, max_window_duration, evaluate, silence_tick, multiplier_of,
  new_detector_engine,
}
use log_analytics_and_anomal.Detection.Detector.{Detector}

-- Until the warm-up ends Evaluate and the heartbeat change nothing at all: no anomaly comes out,
-- and the rules do not learn from what they are shown either.
warmup_silent :
    (rt : Runtime) (e : DetectorEngine) (entry : LogEntry) (now : Time) (at : ℕ → Reading)
    (moments : Text → Moment)
    → before now e.warmup_until ≡ true
    → (evaluate rt e entry now at ≡ e) × (silence_tick e now moments at ≡ e)
unfolding evaluate silence_tick
warmup_silent rt e entry now at moments h = (rw h, rw h)

max_of-left : (a b : Duration) → a ≤ℤ max_of a b
max_of-left a b = ground arith

max_of-right : (a b : Duration) → b ≤ℤ max_of a b
max_of-right a b = ground arith

-- The longest window is at least `window_duration`, the window of each rule that has one, and the
-- time after which a service counts as silent, whichever rules are enabled.
max_window_duration_bounds :
    (cfg : DetectionConfig)
    → let m = max_window_duration cfg in
      (cfg.window_duration ≤ℤ m)
      × (cfg.rules.error_rate.window ≤ℤ m)
      × (cfg.rules.latency.window ≤ℤ m)
      × (cfg.rules.repeated_failure.window ≤ℤ m)
      × (cfg.rules.auth_burst.window ≤ℤ m)
      × (cfg.rules.service_silence.silence_after ≤ℤ m)
unfolding max_window_duration
max_window_duration_bounds cfg =
    let m = max_of cfg.window_duration cfg.rules.error_rate.window in
    let m' = max_of m cfg.rules.latency.window in
    let m'' = max_of m' cfg.rules.repeated_failure.window in
    let m''' = max_of m'' cfg.rules.auth_burst.window in
    let b1 = max_of-left cfg.window_duration cfg.rules.error_rate.window in
    let b2 = max_of-right cfg.window_duration cfg.rules.error_rate.window in
    let c1 = max_of-left m cfg.rules.latency.window in
    let c2 = max_of-right m cfg.rules.latency.window in
    let d1 = max_of-left m' cfg.rules.repeated_failure.window in
    let d2 = max_of-right m' cfg.rules.repeated_failure.window in
    let e1 = max_of-left m'' cfg.rules.auth_burst.window in
    let e2 = max_of-right m'' cfg.rules.auth_burst.window in
    let f1 = max_of-left m''' cfg.rules.service_silence.silence_after in
    let f2 = max_of-right m''' cfg.rules.service_silence.silence_after in omega arith

multiplier_of-pos : (cfg : DetectionConfig) → pos 1 ≤ℤ multiplier_of cfg
multiplier_of-pos cfg = ground arith

product_bound : (m n : ℕ) → 1 ≤ m → n ≤ m * n
product_bound m n h = grind arith

-- If the longest window is not negative and its product with the multiplier is below 2 ^ 63
-- nanoseconds, then at every instant at which a new engine is past its warm-up, at least the window
-- of each rule has gone by since the engine was made, and so has the time after which a service
-- counts as silent.
pub warmup_outlasts_windows :
    (detectors : List Detector) (cfg : DetectionConfig) (now later : Time) (m n : ℕ)
    → multiplier_of cfg ≡ pos m
    → max_window_duration cfg ≡ pos n
    → m * n < 2 ^ 63
    → before later (new_detector_engine detectors cfg now).warmup_until ≡ false
    → (now +ℤ cfg.rules.error_rate.window ≤ℤ later)
      × (now +ℤ cfg.rules.latency.window ≤ℤ later)
      × (now +ℤ cfg.rules.repeated_failure.window ≤ℤ later)
      × (now +ℤ cfg.rules.auth_burst.window ≤ℤ later)
      × (now +ℤ cfg.rules.service_silence.silence_after ≤ℤ later)
unfolding new_detector_engine
warmup_outlasts_windows detectors cfg now later m n hm hn small passed =
    let one : 1 ≤ m = ground (arith, multiplier_of-pos cfg) in
    let enough : n ≤ m * n = product_bound m n one in
    let until : wrap64 (multiplier_of cfg *ℤ max_window_duration cfg) ≡ pos (m * n) =
      ap₂ (λ a b. wrap64 (a *ℤ b)) hm hn
      ∙ ap wrap64 (int_mul_pos m n)
      ∙ wrap64_of_lt (m * n) small in
    let done : now +ℤ pos (m * n) ≤ℤ later = end_passed now later _ (m * n) until passed in
    let (b0, b1, b2, b3, b4, b5) = max_window_duration_bounds cfg in
    (
      shorter now later _ n (m * n) (within _ n hn b1) enough done,
      shorter now later _ n (m * n) (within _ n hn b2) enough done,
      shorter now later _ n (m * n) (within _ n hn b3) enough done,
      shorter now later _ n (m * n) (within _ n hn b4) enough done,
      shorter now later _ n (m * n) (within _ n hn b5) enough done,
    )
  where
    within :
        (d : Duration) (n : ℕ)
        → max_window_duration cfg ≡ pos n
        → d ≤ℤ max_window_duration cfg
        → d ≤ℤ pos n
    within d n e h = subst (λ m. d ≤ℤ m) e h

    end_passed :
        (now later d : ℤ) (k : ℕ)
        → d ≡ pos k
        → before later (now +ℤ d) ≡ false
        → now +ℤ pos k ≤ℤ later
    end_passed now later d k e h = ground (arith, ap (λ d. now +ℤ d) e)

    shorter :
        (now later d : ℤ) (n k : ℕ) → d ≤ℤ pos n → n ≤ k → now +ℤ pos k ≤ℤ later → now +ℤ d ≤ℤ later
    shorter now later d n k h l p = ground (arith, +ℤ_parts now d, +ℤ_parts now (pos k))
