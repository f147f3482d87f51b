-- ===== src/Detection/Latency.antt =====
-- internal/detection/latency.go: latencyWindow and LatencyThresholdRule.
pub mod Firing
pub mod Resets
use log_analytics_and_anomal.Prelude.{
  ℕ, ◌+◌, ◌*◌, ◌/◌, Bool, true, false, not, List, [], ◌∷◌, Option, none, some, Text, text_key, text,
  ℤ, pos, leb_ℤ, if◌then◌else◌, ◌==◌,
}
use log_analytics_and_anomal.Assoc.{lookup, update_all}
use log_analytics_and_anomal.Domain.{
  Time, Duration, LogEntry, Anomaly, latency_breach, zero_time, after, cutoff_at, Value, Float64,
  float64, string, int, int64,
}
use log_analytics_and_anomal.Runtime.{Runtime, float_of_int, float_ge}
use log_analytics_and_anomal.Window.{Window, new_window, scan, evict}
use log_analytics_and_anomal.Detection.Config.{LatencyConfig, Moment}
use log_analytics_and_anomal.Detection.Windows.{window_at, observe}

pub record LatencyEntry : Type 0 where
  pub timestamp : Time
  pub breached : Bool

abbrev pub LatencyWindow : Type 0
LatencyWindow = Window LatencyEntry

-- The zero value of a slot.
abbrev pub zero_entry : LatencyEntry
zero_entry = record { timestamp = zero_time; breached = false }

abbrev pub is_recent : Duration → Time → LatencyEntry → Bool
is_recent d now e = after e.timestamp (cutoff_at now d)

-- One round of the loop over (total, breaches).
abbrev pub note : (LatencyEntry → Bool) → LatencyEntry → ℕ × ℕ → ℕ × ℕ
note recent e (total, breaches) =
    if recent e
    then (total + 1, if e.breached then breaches + 1 else breaches)
    else (total, breaches)

unfoldable pub stats_within : LatencyWindow → Duration → Time → ℕ × ℕ
stats_within w d now = scan (note (is_recent d now)) zero_entry w (0, 0)

unfoldable pub evict_entries : LatencyWindow → Duration → Time → LatencyWindow
evict_entries w older_than now = evict (is_recent older_than now) zero_entry w

pub record LatencyThresholdRule : Type 0 where
  pub windows : List (Text × LatencyWindow)
  pub cfg : LatencyConfig
  pub capacity : ℕ

unfoldable pub new_latency_threshold_rule : LatencyConfig → LatencyThresholdRule
new_latency_threshold_rule cfg = record { windows = []; cfg = cfg; capacity = 10000 }

abbrev pub latency_name : Text
latency_name = text "latency_threshold_breach"

-- The type switch; none leaves `found` false.
number_of : Runtime → Value → Option Float64
number_of rt (float64 f) = some f
number_of rt (string s) = rt.parse_float s
number_of rt (int n) = some (float_of_int n)
number_of rt (int64 n) = some (float_of_int n)
number_of rt _ = none

-- The loop over the two names of the field: the first one that gives a number.
duration_from : Runtime → List (Text × Value) → List Text → Option Float64
unfolding number_of
duration_from rt fields [] = none
duration_from rt fields (key ∷ keys) = elim (lookup key fields) [
  | none ↦ duration_from rt fields keys
  | some v ↦ elim (number_of rt v) [ none ↦ duration_from rt fields keys | some f ↦ some f ]
]

unfoldable pub duration_ms : Runtime → LogEntry → Option Float64
unfolding duration_from
duration_ms rt entry = duration_from rt entry.fields (text "duration_ms" ∷ text "latency_ms" ∷ [])

abbrev latency_anomaly : LatencyConfig → LogEntry → Moment → ℕ → ℕ → Anomaly
latency_anomaly cfg entry at breach_rate total = record {
  id = at.uuid;
  rule_id = latency_name;
  severity = cfg.severity;
  service = entry.service;
  description = latency_breach breach_rate total cfg.threshold_ms cfg.window;
  evidence = entry ∷ [];
  detected_at = at.detected;
}

-- What follows the extraction of the duration. At most 10000 requests are counted, so that
-- `breaches * 100` stays far inside an int.
unfoldable evaluate_duration :
    LatencyThresholdRule → LogEntry → Moment → Float64 → LatencyThresholdRule × Option Anomaly
evaluate_duration r entry at ms =
    let breached = float_ge ms (float_of_int r.cfg.threshold_ms) in
    let windows =
      observe zero_entry r.capacity entry.service
        (record { timestamp = entry.timestamp; breached = breached }) r.windows in
    let r' = record r { windows = windows } in
    let stats =
      stats_within (window_at zero_entry r.capacity windows entry.service) r.cfg.window
        at.counted in
    let breach_rate = stats.1 * 100 / stats.0 in
    if stats.0 == 0
    then (r', none)
    else if leb_ℤ r.cfg.breach_rate_percent (pos breach_rate)
    then (r', some (latency_anomaly r.cfg entry at breach_rate stats.0))
    else (r', none)

unfoldable pub evaluate_latency :
    Runtime → LatencyThresholdRule → LogEntry → Moment → LatencyThresholdRule × Option Anomaly
unfolding evaluate_duration
evaluate_latency rt r entry at = elim (duration_ms rt entry) [
  | none ↦ (r, none)
  | some ms ↦ evaluate_duration r entry at ms
]

unfoldable pub reset_latency : LatencyThresholdRule → (Text → Time) → LatencyThresholdRule
reset_latency r now = record r {
  windows = update_all (λ service w. evict_entries w r.cfg.window (now service)) r.windows;
}
