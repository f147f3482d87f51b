-- ===== src/Detection/ErrorRate/Resets.antt =====
-- ErrorRateRule of internal/detection with its Reset between entries.
use log_analytics_and_anomal.Prelude.{
  ◌≡◌, refl, ap, inl, List, Text, text_key, length, pos, leb_ℤ, arith,
}
use log_analytics_and_anomal.Domain.{Time, LogEntry, zero_time}
use log_analytics_and_anomal.Assoc.{IsDistinct, update_all-IsDistinct}
use log_analytics_and_anomal.Window.{new_window, evict, evict_loop}
use log_analytics_and_anomal.Detection.SlidingWindow.{is_live, evict_older}
use log_analytics_and_anomal.Detection.SlidingWindow.Eviction.{is_live-later}
use log_analytics_and_anomal.Detection.Windows.{window_at}
use log_analytics_and_anomal.Detection.LiveWindows.{window_at-update_all}
use log_analytics_and_anomal.Detection.Recording.{is_some, enough}
use log_analytics_and_anomal.Detection.Resetting.{
  Resetting, RuleCall, InOrder, run_calls, HasRoom, Roomy, fires_after, fires_with_resets,
}
use log_analytics_and_anomal.Detection.Config.{ErrorRateConfig, Moment}
use log_analytics_and_anomal.Detection.ErrorRate.{
  ErrorRateRule, new_error_rate_rule, evaluate_error_rate, reset_error_rate,
}
use log_analytics_and_anomal.Detection.ErrorRate.Firing.{error_rate_recording, error_event, keeps}

pub swept_lem :
    (r : ErrorRateRule) (now : Text → Time) (k : Text)
    → window_at zero_time r.capacity (reset_error_rate r now).windows k
      ≡ evict (is_live r.cfg.window (now k)) zero_time (window_at zero_time r.capacity r.windows k)
unfolding reset_error_rate evict_older evict evict_loop new_window
swept_lem r now k =
    window_at-update_all zero_time r.capacity
      (λ service w. evict_older w r.cfg.window (now service)) r.windows k refl

pub reset_keeps_lem :
    (r : ErrorRateRule) (now later : Text → Time)
    → ((reset_error_rate r now).capacity ≡ r.capacity) × ((reset_error_rate r now).cfg ≡ r.cfg)
unfolding reset_error_rate
reset_keeps_lem r now later = (refl, refl)

pub reset_distinct_lem :
    (r : ErrorRateRule) (now later : Text → Time)
    → IsDistinct r.windows
    → IsDistinct (reset_error_rate r now).windows
unfolding reset_error_rate
reset_distinct_lem r now later d = update_all-IsDistinct _ r.windows d

abbrev pub error_rate_resetting : Resetting error_rate_recording
error_rate_resetting = record {
  live = λ r. is_live r.cfg.window;
  reset = λ r now later. reset_error_rate r now;
  fades = λ r. is_live-later r.cfg.window;
  judge_live = λ r t xs ys h. ap (λ zs. leb_ℤ r.cfg.threshold (pos (length zs))) h;
  live_lem = λ r e at. ap (λ c. is_live c.window) (keeps r e at).1;
  reset_keeps = λ r now later.
      let (k0, k1) = reset_keeps_lem r now later in
      (k0, refl, ap (λ c. enough c.threshold c.window) k1, ap (λ c. is_live c.window) k1);
  reset_distinct = reset_distinct_lem;
  reset_lem = λ r now later k d v. inl (swept_lem r now k);
}

-- A new ErrorRateRule, however Evaluate and Reset calls follow one another, as long as the clock
-- never goes back and no entry that counts meets a full buffer, fires on an entry exactly when the
-- entry is an error and at least `threshold` of all the error timestamps ever recorded for its
-- service, that of the entry included, lie after the reading of the clock less the window.
pub evaluate_error_rate_with_resets :
    (cfg : ErrorRateConfig) (t : Time) (cs : List RuleCall) (e : LogEntry) (at : Moment)
    → InOrder t cs at.counted
    → Roomy error_rate_recording error_rate_resetting (new_error_rate_rule cfg) cs
    → HasRoom error_rate_recording error_rate_resetting
        (run_calls error_rate_recording error_rate_resetting (new_error_rate_rule cfg) cs)
        e
    → is_some
        (evaluate_error_rate
          (run_calls error_rate_recording error_rate_resetting (new_error_rate_rule cfg) cs)
          e
          at).1
      ≡ fires_after (enough cfg.threshold cfg.window at.counted) (error_event) cs e
unfolding new_error_rate_rule
evaluate_error_rate_with_resets cfg t cs e at order roomy here =
    fires_with_resets error_rate_recording error_rate_resetting (new_error_rate_rule cfg) t cs e at
      refl (omega arith) order roomy here
