-- ===== src/Detection/RepeatedFailure/Resets.antt =====
-- RepeatedFailureRule of internal/detection with its Reset between entries.
use log_analytics_and_anomal.Prelude.{
  ◌≡◌, refl, ap, inl, inr, Bool, true, not, ◌==◌, List, [], Text, text_key, select, length,
  eq_nil_of_length, pos, leb_ℤ, arith,
}
use log_analytics_and_anomal.Domain.{Time, LogEntry, zero_time}
use log_analytics_and_anomal.Runtime.{Runtime}
use log_analytics_and_anomal.Assoc.{IsDistinct, update_all-IsDistinct, retain-IsDistinct}
use log_analytics_and_anomal.Window.{Window, new_window, evict, evict_loop}
use log_analytics_and_anomal.Window.Contents.{contents, length-contents}
use log_analytics_and_anomal.Detection.SlidingWindow.{is_live, evict_older}
use log_analytics_and_anomal.Detection.SlidingWindow.Eviction.{is_live-later}
use log_analytics_and_anomal.Detection.Windows.{window_at}
use log_analytics_and_anomal.Detection.LiveWindows.{Swept, window_at-retain}
use log_analytics_and_anomal.Detection.Recording.{is_some, enough}
use log_analytics_and_anomal.Detection.Resetting.{
  Resetting, RuleCall, InOrder, run_calls, HasRoom, Roomy, fires_after, fires_with_resets,
}
use log_analytics_and_anomal.Detection.Config.{RepeatedFailureConfig, Moment}
use log_analytics_and_anomal.Detection.RepeatedFailure.{
  RepeatedFailureRule, new_repeated_failure_rule, evaluate_repeated_failure, reset_repeated_failure,
}
use log_analytics_and_anomal.Detection.RepeatedFailure.Firing.{
  repeated_failure_recording, failure_event, keeps,
}

module _ (rt : Runtime) where
  nothing_held :
      (p : Time → Bool) (w : Window Time)
      → not (not (w.count == 0)) ≡ true
      → select p (contents zero_time w) ≡ []
  nothing_held p w h =
      let e : contents zero_time w ≡ [] =
        eq_nil_of_length (contents zero_time w) (ground (arith, length-contents zero_time w)) in
      ap (select p) e

  pub swept_lem :
      (r : RepeatedFailureRule) (now : Text → Time) (later : Time) (k : Text)
      → IsDistinct r.windows
      → Swept zero_time r.capacity
          (is_live r.cfg.window)
          (now k)
          later
          (window_at zero_time r.capacity r.windows k)
          (window_at zero_time r.capacity (reset_repeated_failure r now).windows k)
  unfolding reset_repeated_failure evict_older evict evict_loop new_window
  swept_lem r now later k d =
      elim (window_at-retain zero_time r.capacity (λ key w. evict_older w r.cfg.window (now key))
        (λ key w. not (w.count == 0)) r.windows k d refl) [
          | inl e ↦ inl e
          | inr (e, gone) ↦ inr (e, nothing_held (is_live r.cfg.window later) _ (ap not gone))
        ]

  pub reset_keeps_lem :
      (r : RepeatedFailureRule) (now later : Text → Time)
      → ((reset_repeated_failure r now).capacity ≡ r.capacity)
        × ((reset_repeated_failure r now).cfg ≡ r.cfg)
  unfolding reset_repeated_failure
  reset_keeps_lem r now later = (refl, refl)

  pub reset_distinct_lem :
      (r : RepeatedFailureRule) (now later : Text → Time)
      → IsDistinct r.windows
      → IsDistinct (reset_repeated_failure r now).windows
  unfolding reset_repeated_failure
  reset_distinct_lem r now later d = retain-IsDistinct _ _ (update_all-IsDistinct _ r.windows d)

  abbrev pub repeated_failure_resetting : Resetting (repeated_failure_recording rt)
  repeated_failure_resetting = record {
    live = λ r. is_live r.cfg.window;
    reset = λ r now later. reset_repeated_failure r now;
    fades = λ r. is_live-later r.cfg.window;
    judge_live = λ r t xs ys h. ap (λ zs. leb_ℤ r.cfg.threshold (pos (length zs))) h;
    live_lem = λ r e at. ap (λ c. is_live c.window) (keeps rt r e at).1;
    reset_keeps = λ r now later.
        let (k0, k1) = reset_keeps_lem r now later in
        (k0, refl, ap (λ c. enough c.threshold c.window) k1, ap (λ c. is_live c.window) k1);
    reset_distinct = reset_distinct_lem;
    reset_lem = λ r now later k d v. swept_lem r now (later k) k d;
  }

  -- A new RepeatedFailureRule, however Evaluate and Reset calls follow one another, as long as the
  -- clock never goes back and no entry that counts meets a full buffer, fires on an entry exactly
  -- when the entry is an error and at least `threshold` of all the error timestamps ever recorded
  -- under its key (service, bar, fingerprint), that of the entry included, lie after the reading of
  -- the clock less the window.
  pub evaluate_repeated_failure_with_resets :
      (cfg : RepeatedFailureConfig) (t : Time) (cs : List RuleCall) (e : LogEntry) (at : Moment)
      → InOrder t cs at.counted
      → Roomy
          (repeated_failure_recording rt)
          repeated_failure_resetting
          (new_repeated_failure_rule cfg)
          cs
      → HasRoom
          (repeated_failure_recording rt)
          repeated_failure_resetting
          (run_calls
            (repeated_failure_recording rt)
            repeated_failure_resetting
            (new_repeated_failure_rule cfg)
            cs)
          e
      → is_some
          (evaluate_repeated_failure rt
            (run_calls
              (repeated_failure_recording rt)
              repeated_failure_resetting
              (new_repeated_failure_rule cfg)
              cs)
            e
            at).1
        ≡ fires_after (enough cfg.threshold cfg.window at.counted) (failure_event rt) cs e
  unfolding new_repeated_failure_rule
  evaluate_repeated_failure_with_resets cfg t cs e at order roomy here =
      fires_with_resets (repeated_failure_recording rt) repeated_failure_resetting
        (new_repeated_failure_rule cfg) t cs e at refl (omega arith) order roomy here
