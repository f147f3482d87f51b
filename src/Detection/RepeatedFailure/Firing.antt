-- ===== src/Detection/RepeatedFailure/Firing.antt =====
-- RepeatedFailureRule fires exactly on the history that its documentation names.
use log_analytics_and_anomal.Prelude.{
  ◌≡◌, refl, ap, List, Option, none, some, Text, text, text_eq, if◌then◌else◌, arith,
}
use log_analytics_and_anomal.Domain.{Time, LogEntry, zero_time}
use log_analytics_and_anomal.Runtime.{Runtime}
use log_analytics_and_anomal.Window.Valid.{IsValid}
use log_analytics_and_anomal.Detection.Config.{RepeatedFailureConfig, Moment}
use log_analytics_and_anomal.Detection.Fingerprint.{fingerprint}
use log_analytics_and_anomal.Detection.SlidingWindow.{count_within_lem}
use log_analytics_and_anomal.Detection.Windows.{window_at}
use log_analytics_and_anomal.Detection.Recording.{
  Recording, is_some, record_event, judged, enough, run, fires_on, fires_exactly,
}
use log_analytics_and_anomal.Detection.RepeatedFailure.{
  RepeatedFailureRule, new_repeated_failure_rule, evaluate_repeated_failure, failure_key,
}

module _ (rt : Runtime) where
  -- Only errors count, each under its service and the fingerprint of its message.
  abbrev pub failure_event : LogEntry → Option (Text × Time)
  failure_event e =
      if text_eq e.level (text "error")
      then some (failure_key e.service (fingerprint rt e.message), e.timestamp)
      else none

  pub windows_lem :
      (r : RepeatedFailureRule) (e : LogEntry) (at : Moment)
      → (evaluate_repeated_failure rt r e at).0.windows
        ≡ record_event zero_time r.capacity (failure_event e) r.windows
  unfolding evaluate_repeated_failure
  windows_lem r e at = ground arith

  pub fires_lem :
      (r : RepeatedFailureRule) (e : LogEntry) (at : Moment)
      → ((k : Text)
          → IsValid r.capacity
              (window_at zero_time r.capacity (evaluate_repeated_failure rt r e at).0.windows k))
      → is_some (evaluate_repeated_failure rt r e at).1
        ≡ judged zero_time r.capacity
            (enough r.cfg.threshold r.cfg.window at.counted)
            (failure_event e)
            (evaluate_repeated_failure rt r e at).0.windows
  unfolding evaluate_repeated_failure
  fires_lem r e at v =
      let key = failure_key e.service (fingerprint rt e.message) in
      ground (
        arith,
        count_within_lem
            (window_at zero_time r.capacity (evaluate_repeated_failure rt r e at).0.windows key)
            r.cfg.window at.counted (v key),
      )

  pub keeps :
      (r : RepeatedFailureRule) (e : LogEntry) (at : Moment)
      → ((evaluate_repeated_failure rt r e at).0.capacity ≡ r.capacity)
        × ((evaluate_repeated_failure rt r e at).0.cfg ≡ r.cfg)
  unfolding evaluate_repeated_failure
  keeps r e at = ground arith

  abbrev pub repeated_failure_recording : Recording RepeatedFailureRule Time
  repeated_failure_recording = record {
    blank = zero_time;
    windows = λ r. r.windows;
    capacity = λ r. r.capacity;
    event_of = λ r. failure_event;
    judge = λ r. enough r.cfg.threshold r.cfg.window;
    evaluate = evaluate_repeated_failure rt;
    windows_lem = windows_lem;
    fires_lem = fires_lem;
    capacity_lem = λ r e at. (keeps r e at).0;
    event_lem = λ r e at. refl;
    judge_lem = λ r e at. ap (λ c. enough c.threshold c.window) (keeps r e at).1;
  }

  -- A new RepeatedFailureRule, after any sequence of Evaluate calls, fires on an entry exactly when the
  -- entry is an error and at least `threshold` of the newest 10000 error timestamps recorded under
  -- its key (service, bar, fingerprint), that of the entry included, lie after the reading of the
  -- clock less the window.
  pub evaluate_repeated_failure_exact :
      (cfg : RepeatedFailureConfig) (past : List (LogEntry × Moment)) (e : LogEntry) (at : Moment)
      → is_some
          (evaluate_repeated_failure rt
            (run repeated_failure_recording (new_repeated_failure_rule cfg) past)
            e
            at).1
        ≡ fires_on 10000 (enough cfg.threshold cfg.window at.counted) failure_event past e
  unfolding new_repeated_failure_rule
  evaluate_repeated_failure_exact cfg past e at =
      fires_exactly repeated_failure_recording (new_repeated_failure_rule cfg) past e at refl
        (omega arith)
