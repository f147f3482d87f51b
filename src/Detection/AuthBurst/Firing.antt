-- ===== src/Detection/AuthBurst/Firing.antt =====
-- AuthFailureBurstRule fires exactly on the history that its documentation names.
use log_analytics_and_anomal.Prelude.{
  ◌≡◌, refl, ap, ◌&&◌, not, List, [], Option, none, some, Text, text_eq, if◌then◌else◌, arith,
}
use log_analytics_and_anomal.Domain.{Time, LogEntry, zero_time}
use log_analytics_and_anomal.Runtime.{Runtime}
use log_analytics_and_anomal.Window.Valid.{IsValid}
use log_analytics_and_anomal.Detection.Config.{AuthBurstConfig, Moment}
use log_analytics_and_anomal.Detection.SlidingWindow.{count_within_lem}
use log_analytics_and_anomal.Detection.Windows.{window_at}
use log_analytics_and_anomal.Detection.Recording.{
  Recording, is_some, record_event, judged, enough, run, fires_on, fires_exactly,
}
use log_analytics_and_anomal.Detection.AuthBurst.{
  AuthFailureBurstRule, new_auth_failure_burst_rule, evaluate_auth_burst, is_auth_failure,
  burst_key,
}

module _ (rt : Runtime) where
  -- Only authentication failures with a source count, each under its source.
  abbrev pub burst_event : AuthBurstConfig → LogEntry → Option (Text × Time)
  burst_event cfg e =
      if is_auth_failure rt e && not (text_eq (burst_key cfg e) [])
      then some (burst_key cfg e, e.timestamp)
      else none

  pub windows_lem :
      (r : AuthFailureBurstRule) (e : LogEntry) (at : Moment)
      → (evaluate_auth_burst rt r e at).0.windows
        ≡ record_event zero_time r.capacity (burst_event r.cfg e) r.windows
  unfolding evaluate_auth_burst
  windows_lem r e at = ground arith

  pub fires_lem :
      (r : AuthFailureBurstRule) (e : LogEntry) (at : Moment)
      → ((k : Text)
          → IsValid r.capacity
              (window_at zero_time r.capacity (evaluate_auth_burst rt r e at).0.windows k))
      → is_some (evaluate_auth_burst rt r e at).1
        ≡ judged zero_time r.capacity
            (enough r.cfg.threshold r.cfg.window at.counted)
            (burst_event r.cfg e)
            (evaluate_auth_burst rt r e at).0.windows
  unfolding evaluate_auth_burst
  fires_lem r e at v =
      let key = burst_key r.cfg e in
      ground (
        arith,
        count_within_lem
            (window_at zero_time r.capacity (evaluate_auth_burst rt r e at).0.windows key)
            r.cfg.window at.counted (v key),
      )

  pub keeps :
      (r : AuthFailureBurstRule) (e : LogEntry) (at : Moment)
      → ((evaluate_auth_burst rt r e at).0.capacity ≡ r.capacity)
        × ((evaluate_auth_burst rt r e at).0.cfg ≡ r.cfg)
  unfolding evaluate_auth_burst
  keeps r e at = ground arith

  abbrev pub auth_burst_recording : Recording AuthFailureBurstRule Time
  auth_burst_recording = record {
    blank = zero_time;
    windows = λ r. r.windows;
    capacity = λ r. r.capacity;
    event_of = λ r. burst_event r.cfg;
    judge = λ r. enough r.cfg.threshold r.cfg.window;
    evaluate = evaluate_auth_burst rt;
    windows_lem = windows_lem;
    fires_lem = fires_lem;
    capacity_lem = λ r e at. (keeps r e at).0;
    event_lem = λ r e at. ap (λ c. burst_event c) (keeps r e at).1;
    judge_lem = λ r e at. ap (λ c. enough c.threshold c.window) (keeps r e at).1;
  }

  -- A new AuthFailureBurstRule, after any sequence of Evaluate calls, fires on an entry exactly when the
  -- entry is an authentication failure with an address or a user name and at least `threshold` of
  -- the newest 10000 timestamps of such failures from the same source, that of the entry included,
  -- lie after the reading of the clock less the window.
  pub evaluate_auth_burst_exact :
      (cfg : AuthBurstConfig) (past : List (LogEntry × Moment)) (e : LogEntry) (at : Moment)
      → let r = new_auth_failure_burst_rule cfg in
        is_some (evaluate_auth_burst rt (run auth_burst_recording r past) e at).1
        ≡ fires_on 10000 (enough cfg.threshold cfg.window at.counted) (burst_event r.cfg) past e
  unfolding new_auth_failure_burst_rule
  evaluate_auth_burst_exact cfg past e at =
      fires_exactly auth_burst_recording (new_auth_failure_burst_rule cfg) past e at refl
        (omega arith)
