-- ===== src/Detection/Latency/Firing.antt =====
-- StatsWithin counts what it should, and LatencyThresholdRule fires exactly on the history that its
-- documentation names.
use log_analytics_and_anomal.Prelude.{
  ℕ, ◌*◌, ◌/◌, ◌≡◌, refl, ap, ◌∙◌, Bool, ◌&&◌, not, List, [], ◌∷◌, Option, none, some, Text, pos,
  leb_ℤ, ◌==◌, arith, length, select,
}
use log_analytics_and_anomal.Domain.{Time, Duration, LogEntry, Float64}
use log_analytics_and_anomal.Runtime.{Runtime, float_of_int, float_ge}
use log_analytics_and_anomal.Window.Valid.{IsValid}
use log_analytics_and_anomal.Window.Contents.{contents}
use log_analytics_and_anomal.Window.Scan.{fold_newest, scan_lem}
use log_analytics_and_anomal.Detection.Config.{LatencyConfig, Moment}
use log_analytics_and_anomal.Detection.Windows.{window_at}
use log_analytics_and_anomal.Detection.Recording.{
  Recording, is_some, record_event, judged, run, fires_on, fires_exactly,
}
use log_analytics_and_anomal.Detection.Latency.{
  LatencyEntry, LatencyWindow, LatencyThresholdRule, zero_entry, is_recent, note, stats_within,
  new_latency_threshold_rule, duration_ms, evaluate_latency,
}

abbrev pub total_of : (LatencyEntry → Bool) → List LatencyEntry → ℕ
total_of recent xs = length (select recent xs)

abbrev pub breaches_of : (LatencyEntry → Bool) → List LatencyEntry → ℕ
breaches_of recent xs = length (select (λ e. recent e && e.breached) xs)

fold_newest-note :
    (recent : LatencyEntry → Bool) (xs : List LatencyEntry)
    → fold_newest (note recent) zero_entry xs (0, 0) ≡ (total_of recent xs, breaches_of recent xs)
fold_newest-note recent [] = refl
fold_newest-note recent (x ∷ xs) = rw (fold_newest-note recent xs) (ground arith)

-- StatsWithin of a well-formed buffer returns the number of held requests after the cutoff, and of
-- those that breached.
pub stats_within_lem :
    {capacity : ℕ} (w : LatencyWindow) (d : Duration) (now : Time)
    → IsValid capacity w
    → stats_within w d now ≡ (
      total_of (is_recent d now) (contents zero_entry w),
      breaches_of (is_recent d now) (contents zero_entry w),
    )
unfolding stats_within
stats_within_lem w d now v =
    scan_lem (note (is_recent d now)) zero_entry w (0, 0) v
    ∙ fold_newest-note (is_recent d now) (contents zero_entry w)

-- The share of breaching requests, in whole percent, reaches the configured one.
abbrev pub breaching : LatencyConfig → Time → List LatencyEntry → Bool
breaching cfg now xs =
    let recent = is_recent cfg.window now in
    not (total_of recent xs == 0)
    && leb_ℤ cfg.breach_rate_percent (pos (breaches_of recent xs * 100 / total_of recent xs))

module _ (rt : Runtime) where
  abbrev request : LatencyConfig → LogEntry → Float64 → Text × LatencyEntry
  request cfg e ms = (
    e.service,
    record { timestamp = e.timestamp; breached = float_ge ms (float_of_int cfg.threshold_ms) },
  )

  abbrev request_if : LatencyConfig → LogEntry → Option Float64 → Option (Text × LatencyEntry)
  request_if cfg e none = none
  request_if cfg e (some ms) = some (request cfg e ms)

  -- Only entries with a duration count, each under its service.
  abbrev pub latency_event : LatencyConfig → LogEntry → Option (Text × LatencyEntry)
  latency_event cfg e = request_if cfg e (duration_ms rt e)

  pub windows_lem :
      (r : LatencyThresholdRule) (e : LogEntry) (at : Moment)
      → (evaluate_latency rt r e at).0.windows
        ≡ record_event zero_entry r.capacity (latency_event r.cfg e) r.windows
  unfolding evaluate_latency
  windows_lem r e at = ground arith

  pub fires_lem :
      (r : LatencyThresholdRule) (e : LogEntry) (at : Moment)
      → ((k : Text)
          → IsValid r.capacity
              (window_at zero_entry r.capacity (evaluate_latency rt r e at).0.windows k))
      → is_some (evaluate_latency rt r e at).1
        ≡ judged zero_entry r.capacity
            (breaching r.cfg at.counted)
            (latency_event r.cfg e)
            (evaluate_latency rt r e at).0.windows
  unfolding evaluate_latency
  fires_lem r e at v = ground (
    arith,
    stats_within_lem
        (window_at zero_entry r.capacity (evaluate_latency rt r e at).0.windows e.service)
        r.cfg.window at.counted (v e.service),
  )

  pub keeps :
      (r : LatencyThresholdRule) (e : LogEntry) (at : Moment)
      → ((evaluate_latency rt r e at).0.capacity ≡ r.capacity)
        × ((evaluate_latency rt r e at).0.cfg ≡ r.cfg)
  unfolding evaluate_latency
  keeps r e at = ground arith

  abbrev pub latency_recording : Recording LatencyThresholdRule LatencyEntry
  latency_recording = record {
    blank = zero_entry;
    windows = λ r. r.windows;
    capacity = λ r. r.capacity;
    event_of = λ r. latency_event r.cfg;
    judge = λ r. breaching r.cfg;
    evaluate = evaluate_latency rt;
    windows_lem = windows_lem;
    fires_lem = fires_lem;
    capacity_lem = λ r e at. (keeps r e at).0;
    event_lem = λ r e at. ap (λ c. latency_event c) (keeps r e at).1;
    judge_lem = λ r e at. ap (λ c. breaching c) (keeps r e at).1;
  }

  -- A new LatencyThresholdRule, after any sequence of Evaluate calls, fires on an entry exactly when the
  -- entry has a duration and, among those of the newest 10000 requests of its service (this one
  -- included) that lie after the reading of the clock less the window, there is one and the
  -- breaching ones are at least `breach_rate_percent` percent, rounded down.
  pub evaluate_latency_exact :
      (cfg : LatencyConfig) (past : List (LogEntry × Moment)) (e : LogEntry) (at : Moment)
      → is_some
          (evaluate_latency rt (run latency_recording (new_latency_threshold_rule cfg) past) e at).1
        ≡ fires_on 10000 (breaching cfg at.counted) (latency_event cfg) past e
  unfolding new_latency_threshold_rule
  evaluate_latency_exact cfg past e at =
      fires_exactly latency_recording (new_latency_threshold_rule cfg) past e at refl (omega arith)
