-- ===== src/Detection/Latency/Resets.antt =====
-- LatencyThresholdRule of internal/detection with its Reset between entries.
use log_analytics_and_anomal.Prelude.{
  ◌≡◌, refl, sym, ap, ap₂, ◌∙◌, inl, Bool, not, ◌*◌, ◌/◌, ◌&&◌, ◌==◌, List, [], ◌∷◌, Text, text_key,
  select, length, pos, leb_ℤ, arith,
}
use log_analytics_and_anomal.Domain.{Time, LogEntry}
use log_analytics_and_anomal.Runtime.{Runtime}
use log_analytics_and_anomal.Assoc.{IsDistinct, update_all-IsDistinct}
use log_analytics_and_anomal.Window.{new_window, evict, evict_loop}
use log_analytics_and_anomal.Detection.SlidingWindow.Eviction.{is_live-later}
use log_analytics_and_anomal.Detection.Windows.{window_at}
use log_analytics_and_anomal.Detection.LiveWindows.{window_at-update_all}
use log_analytics_and_anomal.Detection.Recording.{is_some}
use log_analytics_and_anomal.Detection.Resetting.{
  Resetting, RuleCall, InOrder, run_calls, HasRoom, Roomy, fires_after, fires_with_resets,
}
use log_analytics_and_anomal.Detection.Config.{LatencyConfig, Moment}
use log_analytics_and_anomal.Detection.Latency.{
  LatencyThresholdRule, new_latency_threshold_rule, evaluate_latency, reset_latency, is_recent,
  evict_entries, zero_entry, LatencyEntry,
}
use log_analytics_and_anomal.Detection.Latency.Firing.{
  latency_recording, latency_event, keeps, breaching, breaches_of,
}

module _ (rt : Runtime) where
  select-and :
      (p q : LatencyEntry → Bool) (xs : List LatencyEntry)
      → select (λ a. p a && q a) xs ≡ select q (select p xs)
  select-and p q [] = refl
  select-and p q (x ∷ xs) = ground (arith, select-and p q xs)

  pub breaching-live :
      (cfg : LatencyConfig) (t : Time) (xs ys : List LatencyEntry)
      → select (is_recent cfg.window t) xs ≡ select (is_recent cfg.window t) ys
      → breaching cfg t xs ≡ breaching cfg t ys
  breaching-live cfg t xs ys h =
      let recent = is_recent cfg.window t in
      let breaches : breaches_of recent xs ≡ breaches_of recent ys = ap length (
        select-and recent (λ a. a.breached) xs
        ∙ ap (select (λ a. a.breached)) h
        ∙ sym (select-and recent (λ a. a.breached) ys)) in
      ap₂ (λ n m. not (n == 0) && leb_ℤ cfg.breach_rate_percent (pos (m * 100 / n))) (ap length h)
        breaches

  pub swept_lem :
      (r : LatencyThresholdRule) (now : Text → Time) (k : Text)
      → window_at zero_entry r.capacity (reset_latency r now).windows k
        ≡ evict
            (is_recent r.cfg.window (now k))
            zero_entry
            (window_at zero_entry r.capacity r.windows k)
  unfolding reset_latency evict_entries evict evict_loop new_window
  swept_lem r now k =
      window_at-update_all zero_entry r.capacity
        (λ service w. evict_entries w r.cfg.window (now service)) r.windows k refl

  pub reset_keeps_lem :
      (r : LatencyThresholdRule) (now later : Text → Time)
      → ((reset_latency r now).capacity ≡ r.capacity) × ((reset_latency r now).cfg ≡ r.cfg)
  unfolding reset_latency
  reset_keeps_lem r now later = (refl, refl)

  pub reset_distinct_lem :
      (r : LatencyThresholdRule) (now later : Text → Time)
      → IsDistinct r.windows
      → IsDistinct (reset_latency r now).windows
  unfolding reset_latency
  reset_distinct_lem r now later d = update_all-IsDistinct _ r.windows d

  abbrev pub latency_resetting : Resetting (latency_recording rt)
  latency_resetting = record {
    live = λ r. is_recent r.cfg.window;
    reset = λ r now later. reset_latency r now;
    fades = λ r t u a. is_live-later r.cfg.window t u a.timestamp;
    judge_live = λ r t xs ys h. breaching-live r.cfg t xs ys h;
    live_lem = λ r e at. ap (λ c. is_recent c.window) (keeps rt r e at).1;
    reset_keeps = λ r now later.
        let (k0, k1) = reset_keeps_lem r now later in
        (
          k0,
          ap (λ c. latency_event rt c) k1,
          ap (λ c. breaching c) k1,
          ap (λ c. is_recent c.window) k1,
        );
    reset_distinct = reset_distinct_lem;
    reset_lem = λ r now later k d v. inl (swept_lem r now k);
  }

  -- A new LatencyThresholdRule, however Evaluate and Reset calls follow one another, as long as the
  -- clock never goes back and no entry that counts meets a full buffer, fires on an entry exactly
  -- when the entry has a duration and, among all the requests of its service ever recorded (this
  -- one included) that lie after the reading of the clock less the window, there is one and the
  -- breaching ones are at least `breach_rate_percent` percent, rounded down.
  pub evaluate_latency_with_resets :
      (cfg : LatencyConfig) (t : Time) (cs : List RuleCall) (e : LogEntry) (at : Moment)
      → InOrder t cs at.counted
      → Roomy (latency_recording rt) latency_resetting (new_latency_threshold_rule cfg) cs
      → HasRoom
          (latency_recording rt)
          latency_resetting
          (run_calls (latency_recording rt) latency_resetting (new_latency_threshold_rule cfg) cs)
          e
      → is_some
          (evaluate_latency rt
            (run_calls (latency_recording rt) latency_resetting (new_latency_threshold_rule cfg) cs)
            e
            at).1
        ≡ fires_after (breaching cfg at.counted) (latency_event rt cfg) cs e
  unfolding new_latency_threshold_rule
  evaluate_latency_with_resets cfg t cs e at order roomy here =
      fires_with_resets (latency_recording rt) latency_resetting (new_latency_threshold_rule cfg) t
        cs e at refl (omega arith) order roomy here
