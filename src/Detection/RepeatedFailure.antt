-- ===== src/Detection/RepeatedFailure.antt =====
-- internal/detection/repeated_failure.go: RepeatedFailureRule.
pub mod Firing
pub mod Resets
use log_analytics_and_anomal.Prelude.{
  ℕ, Bool, true, false, not, List, [], ◌∷◌, ◌++◌, Option, none, some, Text, text, text_eq, pos,
  leb_ℤ, if◌then◌else◌, ◌==◌,
}
use log_analytics_and_anomal.Assoc.{update_all, retain}
use log_analytics_and_anomal.Domain.{Time, LogEntry, Anomaly, repeated_failures, zero_time}
use log_analytics_and_anomal.Runtime.{Runtime}
use log_analytics_and_anomal.Detection.Config.{RepeatedFailureConfig, Moment}
use log_analytics_and_anomal.Detection.SlidingWindow.{SlidingWindow, count_within, evict_older}
use log_analytics_and_anomal.Detection.Windows.{window_at, observe}
use log_analytics_and_anomal.Detection.Fingerprint.{fingerprint}

pub record RepeatedFailureRule : Type 0 where
  pub windows : List (Text × SlidingWindow)
  pub cfg : RepeatedFailureConfig
  pub capacity : ℕ

unfoldable pub new_repeated_failure_rule : RepeatedFailureConfig → RepeatedFailureRule
new_repeated_failure_rule cfg = record { windows = []; cfg = cfg; capacity = 10000 }

abbrev pub repeated_failure_name : Text
repeated_failure_name = text "repeated_failure"

-- entry.Service + "|" + fp
abbrev pub failure_key : Text → Text → Text
failure_key service fp = service ++ (b'|' ∷ fp)

abbrev repeated_failure_anomaly : RepeatedFailureConfig → LogEntry → Moment → Text → ℕ → Anomaly
repeated_failure_anomaly cfg entry at fp count = record {
  id = at.uuid;
  rule_id = repeated_failure_name;
  severity = cfg.severity;
  service = entry.service;
  description = repeated_failures fp count cfg.window entry.service;
  evidence = entry ∷ [];
  detected_at = at.detected;
}

unfoldable pub evaluate_repeated_failure :
    Runtime → RepeatedFailureRule → LogEntry → Moment → RepeatedFailureRule × Option Anomaly
evaluate_repeated_failure rt r entry at =
    if not (text_eq entry.level (text "error"))
    then (r, none)
    else let fp = fingerprint rt entry.message in
      let key = failure_key entry.service fp in
      let windows = observe zero_time r.capacity key entry.timestamp r.windows in
      let r' = record r { windows = windows } in
      let count =
        count_within (window_at zero_time r.capacity windows key) r.cfg.window at.counted in
      if leb_ℤ r.cfg.threshold (pos count)
      then (r', some (repeated_failure_anomaly r.cfg entry at fp count))
      else (r', none)

-- Each buffer is evicted, and its key deleted if nothing is left in it.
unfoldable pub reset_repeated_failure : RepeatedFailureRule → (Text → Time) → RepeatedFailureRule
reset_repeated_failure r now = record r {
  windows =
      retain (λ key w. not (w.count == 0))
        (update_all (λ key w. evict_older w r.cfg.window (now key)) r.windows);
}
