-- ===== src/Detection/ErrorRate.antt =====
-- internal/detection/error_rate.go: ErrorRateRule.
pub mod Firing
pub mod Resets
use log_analytics_and_anomal.Prelude.{
  ℕ, Bool, true, false, not, List, [], ◌∷◌, Option, none, some, Text, text, text_eq, pos, leb_ℤ,
  if◌then◌else◌,
}
use log_analytics_and_anomal.Assoc.{update_all}
use log_analytics_and_anomal.Domain.{
  Time, Duration, LogEntry, Anomaly, Description, error_rate_spike, zero_time,
}
use log_analytics_and_anomal.Window.{Window}
use log_analytics_and_anomal.Detection.Config.{ErrorRateConfig, Moment}
use log_analytics_and_anomal.Detection.SlidingWindow.{SlidingWindow, count_within, evict_older}
use log_analytics_and_anomal.Detection.Windows.{window_at, observe}

pub record ErrorRateRule : Type 0 where
  pub windows : List (Text × SlidingWindow)
  pub cfg : ErrorRateConfig
  pub capacity : ℕ

unfoldable pub new_error_rate_rule : ErrorRateConfig → ErrorRateRule
new_error_rate_rule cfg = record { windows = []; cfg = cfg; capacity = 10000 }

abbrev pub error_rate_name : Text
error_rate_name = text "error_rate_spike"

abbrev error_rate_anomaly : ErrorRateConfig → LogEntry → Moment → ℕ → Anomaly
error_rate_anomaly cfg entry at count = record {
  id = at.uuid;
  rule_id = error_rate_name;
  severity = cfg.severity;
  service = entry.service;
  description = error_rate_spike count cfg.window entry.service;
  evidence = entry ∷ [];
  detected_at = at.detected;
}

unfoldable pub evaluate_error_rate :
    ErrorRateRule → LogEntry → Moment → ErrorRateRule × Option Anomaly
evaluate_error_rate r entry at =
    if not (text_eq entry.level (text "error"))
    then (r, none)
    else let windows = observe zero_time r.capacity entry.service entry.timestamp r.windows in
      let r' = record r { windows = windows } in
      let count =
        count_within (window_at zero_time r.capacity windows entry.service) r.cfg.window
          at.counted in
      if leb_ℤ r.cfg.threshold (pos count)
      then (r', some (error_rate_anomaly r.cfg entry at count))
      else (r', none)

-- Reset reads the clock once for each buffer that it evicts.
unfoldable pub reset_error_rate : ErrorRateRule → (Text → Time) → ErrorRateRule
reset_error_rate r now = record r {
  windows = update_all (λ service w. evict_older w r.cfg.window (now service)) r.windows;
}
