-- ===== src/Detection/ErrorRate/Firing.antt =====
-- ErrorRateRule fires exactly on the history that its documentation names.
use log_analytics_and_anomal.Prelude.{
  ◌≡◌, refl, ap, List, Option, none, some, Text, text, text_eq, if◌then◌else◌, arith,
}
use log_analytics_and_anomal.Domain.{Time, LogEntry, zero_time}
use log_analytics_and_anomal.Window.Valid.{IsValid}
use log_analytics_and_anomal.Detection.Config.{ErrorRateConfig, Moment}
use log_analytics_and_anomal.Detection.SlidingWindow.{count_within_lem}
use log_analytics_and_anomal.Detection.Windows.{window_at}
use log_analytics_and_anomal.Detection.Recording.{
  Recording, is_some, record_event, judged, enough, run, fires_on, fires_exactly,
}
use log_analytics_and_anomal.Detection.ErrorRate.{
  ErrorRateRule, new_error_rate_rule, evaluate_error_rate,
}

-- Only errors count, each under its service.
abbrev pub error_event : LogEntry → Option (Text × Time)
error_event e = if text_eq e.level (text "error") then some (e.service, e.timestamp) else none

pub windows_lem :
    (r : ErrorRateRule) (e : LogEntry) (at : Moment)
    → (evaluate_error_rate r e at).0.windows
      ≡ record_event zero_time r.capacity (error_event e) r.windows
unfolding evaluate_error_rate
windows_lem r e at = ground arith

pub fires_lem :
    (r : ErrorRateRule) (e : LogEntry) (at : Moment)
    → ((k : Text)
        → IsValid r.capacity
            (window_at zero_time r.capacity (evaluate_error_rate r e at).0.windows k))
    → is_some (evaluate_error_rate r e at).1
      ≡ judged zero_time r.capacity
          (enough r.cfg.threshold r.cfg.window at.counted)
          (error_event e)
          (evaluate_error_rate r e at).0.windows
unfolding evaluate_error_rate
fires_lem r e at v = ground (
  arith,
  count_within_lem (window_at zero_time r.capacity (evaluate_error_rate r e at).0.windows e.service)
      r.cfg.window at.counted (v e.service),
)

pub keeps :
    (r : ErrorRateRule) (e : LogEntry) (at : Moment)
    → ((evaluate_error_rate r e at).0.capacity ≡ r.capacity)
      × ((evaluate_error_rate r e at).0.cfg ≡ r.cfg)
unfolding evaluate_error_rate
keeps r e at = ground arith

abbrev pub error_rate_recording : Recording ErrorRateRule Time
error_rate_recording = record {
  blank = zero_time;
  windows = λ r. r.windows;
  capacity = λ r. r.capacity;
  event_of = λ r. error_event;
  judge = λ r. enough r.cfg.threshold r.cfg.window;
  evaluate = evaluate_error_rate;
  windows_lem = windows_lem;
  fires_lem = fires_lem;
  capacity_lem = λ r e at. (keeps r e at).0;
  event_lem = λ r e at. refl;
  judge_lem = λ r e at. ap (λ c. enough c.threshold c.window) (keeps r e at).1;
}

-- A new ErrorRateRule, after any sequence of Evaluate calls, fires on an entry exactly when the entry is
-- an error and at least `threshold` of the newest 10000 error timestamps of its service, that of
-- the entry included, lie after the reading of the clock less the window.
pub evaluate_error_rate_exact :
    (cfg : ErrorRateConfig) (past : List (LogEntry × Moment)) (e : LogEntry) (at : Moment)
    → is_some (evaluate_error_rate (run error_rate_recording (new_error_rate_rule cfg) past) e at).1
      ≡ fires_on 10000 (enough cfg.threshold cfg.window at.counted) error_event past e
unfolding new_error_rate_rule
evaluate_error_rate_exact cfg past e at =
    fires_exactly error_rate_recording (new_error_rate_rule cfg) past e at refl (omega arith)
