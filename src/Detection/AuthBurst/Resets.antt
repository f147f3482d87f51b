-- ===== src/Detection/AuthBurst/Resets.antt =====
-- AuthFailureBurstRule of internal/detection with its Reset between entries.
use log_analytics_and_anomal.Prelude.{
  ℕ, ◌≡◌, refl, ap, inl, inr, false, not, ◌==◌, List, [], Text, text_key, select, length,
  eq_nil_of_length, pos, leb_ℤ, arith,
}
use log_analytics_and_anomal.Domain.{Time, Duration, LogEntry, zero_time}
use log_analytics_and_anomal.Runtime.{Runtime}
use log_analytics_and_anomal.Assoc.{IsDistinct, update_all-IsDistinct, retain-IsDistinct}
use log_analytics_and_anomal.Window.{Window, new_window, evict, evict_loop}
use log_analytics_and_anomal.Window.Valid.{IsValid, evict-IsValid}
use log_analytics_and_anomal.Window.Contents.{contents}
use log_analytics_and_anomal.Detection.SlidingWindow.{
  is_live, evict_older, count_within, count_within_lem,
}
use log_analytics_and_anomal.Detection.SlidingWindow.Eviction.{is_live-later}
use log_analytics_and_anomal.Detection.Windows.{window_at}
use log_analytics_and_anomal.Detection.LiveWindows.{Swept, window_at-retain}
use log_analytics_and_anomal.Detection.Recording.{is_some, enough}
use log_analytics_and_anomal.Detection.Resetting.{
  Resetting, RuleCall, InOrder, run_calls, HasRoom, Roomy, fires_after, fires_with_resets,
}
use log_analytics_and_anomal.Detection.Config.{AuthBurstConfig, Moment}
use log_analytics_and_anomal.Detection.AuthBurst.{
  AuthFailureBurstRule, new_auth_failure_burst_rule, evaluate_auth_burst, reset_auth_burst,
}
use log_analytics_and_anomal.Detection.AuthBurst.Firing.{auth_burst_recording, burst_event, keeps}

module _ (rt : Runtime) where
  nothing_live :
      {capacity : ℕ} (d : Duration) (now : Time) (w : Window Time)
      → IsValid capacity w
      → not (count_within w d now == 0) ≡ false
      → select (is_live d now) (contents zero_time w) ≡ []
  nothing_live d now w v h =
      eq_nil_of_length (select (is_live d now) (contents zero_time w))
        (ground (arith, count_within_lem w d now v))

  pub swept_lem :
      (r : AuthFailureBurstRule) (now later : Text → Time) (k : Text)
      → IsDistinct r.windows
      → IsValid r.capacity (window_at zero_time r.capacity r.windows k)
      → Swept zero_time r.capacity
          (is_live r.cfg.window)
          (now k)
          (later k)
          (window_at zero_time r.capacity r.windows k)
          (window_at zero_time r.capacity (reset_auth_burst r now later).windows k)
  unfolding reset_auth_burst evict_older evict evict_loop new_window
  swept_lem r now later k d v =
      elim (window_at-retain zero_time r.capacity (λ key w. evict_older w r.cfg.window (now key))
        (λ key w. not (count_within w r.cfg.window (later key) == 0)) r.windows k d refl) [
          | inl e ↦ inl e
          | inr (e, gone) ↦ inr (
            e,
            nothing_live r.cfg.window (later k) _
                (evict-IsValid (is_live r.cfg.window (now k)) zero_time _ v) gone,
          )
        ]

  pub reset_keeps_lem :
      (r : AuthFailureBurstRule) (now later : Text → Time)
      → ((reset_auth_burst r now later).capacity ≡ r.capacity)
        × ((reset_auth_burst r now later).cfg ≡ r.cfg)
  unfolding reset_auth_burst
  reset_keeps_lem r now later = (refl, refl)

  pub reset_distinct_lem :
      (r : AuthFailureBurstRule) (now later : Text → Time)
      → IsDistinct r.windows
      → IsDistinct (reset_auth_burst r now later).windows
  unfolding reset_auth_burst
  reset_distinct_lem r now later d = retain-IsDistinct _ _ (update_all-IsDistinct _ r.windows d)

  abbrev pub auth_burst_resetting : Resetting (auth_burst_recording rt)
  auth_burst_resetting = record {
    live = λ r. is_live r.cfg.window;
    reset = reset_auth_burst;
    fades = λ r. is_live-later r.cfg.window;
    judge_live = λ r t xs ys h. ap (λ zs. leb_ℤ r.cfg.threshold (pos (length zs))) h;
    live_lem = λ r e at. ap (λ c. is_live c.window) (keeps rt r e at).1;
    reset_keeps = λ r now later.
        let (k0, k1) = reset_keeps_lem r now later in
        (
          k0,
          ap (λ c. burst_event rt c) k1,
          ap (λ c. enough c.threshold c.window) k1,
          ap (λ c. is_live c.window) k1,
        );
    reset_distinct = reset_distinct_lem;
    reset_lem = λ r now later k d v. swept_lem r now later k d v;
  }

  -- A new AuthFailureBurstRule, however Evaluate and Reset calls follow one another, as long as the
  -- clock never goes back and no entry that counts meets a full buffer, fires on an entry exactly
  -- when the entry is an authentication failure with an address or a user name and at least
  -- `threshold` of all the timestamps of such failures ever recorded for the same source, that of
  -- the entry included, lie after the reading of the clock less the window.
  pub evaluate_auth_burst_with_resets :
      (cfg : AuthBurstConfig) (t : Time) (cs : List RuleCall) (e : LogEntry) (at : Moment)
      → InOrder t cs at.counted
      → Roomy (auth_burst_recording rt) auth_burst_resetting (new_auth_failure_burst_rule cfg) cs
      → HasRoom
          (auth_burst_recording rt)
          auth_burst_resetting
          (run_calls
            (auth_burst_recording rt)
            auth_burst_resetting
            (new_auth_failure_burst_rule cfg)
            cs)
          e
      → is_some
          (evaluate_auth_burst rt
            (run_calls
              (auth_burst_recording rt)
              auth_burst_resetting
              (new_auth_failure_burst_rule cfg)
              cs)
            e
            at).1
        ≡ fires_after
            (enough cfg.threshold cfg.window at.counted)
            (burst_event rt (new_auth_failure_burst_rule cfg).cfg)
            cs
            e
  unfolding new_auth_failure_burst_rule
  evaluate_auth_burst_with_resets cfg t cs e at order roomy here =
      fires_with_resets (auth_burst_recording rt) auth_burst_resetting
        (new_auth_failure_burst_rule cfg) t cs e at refl (omega arith) order roomy here
