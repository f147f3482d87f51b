-- ===== src/Tests/Resets.antt =====
-- The recording rules with a Reset between entries.
use log_analytics_and_anomal.Prelude.{◌≡◌, true, List, [], ◌∷◌, pos, text_eq, arith, ◌-ℤ◌, ◌*ℤ◌}
use log_analytics_and_anomal.Assoc.{lookup, insert, retain, update_all}
use log_analytics_and_anomal.Runtime.{float_ge, float_of_int, lower, contains}
use log_analytics_and_anomal.Window.{new_window, add, evict, scan, scan_loop, evict_loop}
use log_analytics_and_anomal.Detection.Windows.{window_at, observe}
use log_analytics_and_anomal.Detection.SlidingWindow.{evict_older, count_within}
use log_analytics_and_anomal.Detection.Recording.{is_some}
use log_analytics_and_anomal.Detection.Resetting.{RuleCall, evaluates, resets, InOrder, run_calls}
use log_analytics_and_anomal.Detection.ErrorRate.{
  new_error_rate_rule, evaluate_error_rate, reset_error_rate,
}
use log_analytics_and_anomal.Detection.ErrorRate.Firing.{error_rate_recording}
use log_analytics_and_anomal.Detection.ErrorRate.Resets.{
  error_rate_resetting, evaluate_error_rate_with_resets,
}
use log_analytics_and_anomal.Detection.Latency.{
  new_latency_threshold_rule, evaluate_latency, reset_latency, duration_ms, stats_within,
  evict_entries,
}
use log_analytics_and_anomal.Detection.Latency.Firing.{latency_recording}
use log_analytics_and_anomal.Detection.Latency.Resets.{
  latency_resetting, evaluate_latency_with_resets,
}
use log_analytics_and_anomal.Detection.RepeatedFailure.{
  new_repeated_failure_rule, evaluate_repeated_failure, reset_repeated_failure,
}
use log_analytics_and_anomal.Detection.RepeatedFailure.Firing.{repeated_failure_recording}
use log_analytics_and_anomal.Detection.RepeatedFailure.Resets.{
  repeated_failure_resetting, evaluate_repeated_failure_with_resets,
}
use log_analytics_and_anomal.Detection.Fingerprint.{fingerprint}
use log_analytics_and_anomal.Detection.AuthBurst.{
  new_auth_failure_burst_rule, evaluate_auth_burst, reset_auth_burst, is_auth_failure, burst_key,
}
use log_analytics_and_anomal.Detection.AuthBurst.Firing.{auth_burst_recording}
use log_analytics_and_anomal.Detection.AuthBurst.Resets.{
  auth_burst_resetting, evaluate_auth_burst_with_resets,
}
use log_analytics_and_anomal.Tests.Samples.{
  sample_runtime, failure_at, moment_at, error_cfg, latency_cfg, repeated_cfg, burst_cfg,
}

-- Two failures, a Reset that forgets neither, and a Reset that forgets the first.
abbrev failures_and_resets : List RuleCall
failures_and_resets =
    evaluates (failure_at 10) (moment_at 11)
    ∷ evaluates (failure_at 20) (moment_at 21)
    ∷ resets (λ k. pos 30) (λ k. pos 31)
    ∷ resets (λ k. pos 112) (λ k. pos 112)
    ∷ []

calls-InOrder : InOrder (pos 0) failures_and_resets (pos 116)
calls-InOrder = (
  omega arith,
  (
    omega arith,
    (
      pos 31,
      (λ k. (omega arith, omega arith, omega arith)),
      (pos 112, (λ k. (omega arith, omega arith, omega arith)), omega arith),
    ),
  ),
)

evaluate_error_rate_with_resets_example :
    is_some
      (evaluate_error_rate
        (run_calls error_rate_recording error_rate_resetting
          (new_error_rate_rule error_cfg)
          failures_and_resets)
        (failure_at 115)
        (moment_at 116)).1
    ≡ true
unfolding new_error_rate_rule text_eq ◌-ℤ◌ evaluate_error_rate reset_error_rate observe window_at
    lookup insert new_window add update_all evict_older evict count_within scan retain
evaluate_error_rate_with_resets_example =
    evaluate_error_rate_with_resets error_cfg (pos 0) failures_and_resets (failure_at 115)
      (moment_at 116) calls-InOrder ((omega arith, (omega arith, tt))) (omega arith)

evaluate_latency_with_resets_example :
    is_some
      (evaluate_latency sample_runtime
        (run_calls
          (latency_recording sample_runtime)
          (latency_resetting sample_runtime)
          (new_latency_threshold_rule latency_cfg)
          failures_and_resets)
        (failure_at 115)
        (moment_at 116)).1
    ≡ true
unfolding new_latency_threshold_rule text_eq ◌-ℤ◌ evaluate_latency reset_latency observe window_at
    lookup insert new_window add update_all evict_older evict count_within scan retain stats_within
    evict_entries evict_loop scan_loop duration_ms float_ge float_of_int ◌*ℤ◌
evaluate_latency_with_resets_example =
    evaluate_latency_with_resets sample_runtime latency_cfg (pos 0) failures_and_resets
      (failure_at 115) (moment_at 116) calls-InOrder ((omega arith, (omega arith, tt)))
      (omega arith)

evaluate_repeated_failure_with_resets_example :
    is_some
      (evaluate_repeated_failure sample_runtime
        (run_calls
          (repeated_failure_recording sample_runtime)
          (repeated_failure_resetting sample_runtime)
          (new_repeated_failure_rule repeated_cfg)
          failures_and_resets)
        (failure_at 115)
        (moment_at 116)).1
    ≡ true
unfolding new_repeated_failure_rule text_eq ◌-ℤ◌ evaluate_repeated_failure reset_repeated_failure
    fingerprint lower observe window_at lookup insert new_window add update_all evict_older evict
    count_within scan retain evict_loop scan_loop
evaluate_repeated_failure_with_resets_example =
    evaluate_repeated_failure_with_resets sample_runtime repeated_cfg (pos 0) failures_and_resets
      (failure_at 115) (moment_at 116) calls-InOrder ((omega arith, (omega arith, tt)))
      (omega arith)

evaluate_auth_burst_with_resets_example :
    is_some
      (evaluate_auth_burst sample_runtime
        (run_calls
          (auth_burst_recording sample_runtime)
          (auth_burst_resetting sample_runtime)
          (new_auth_failure_burst_rule burst_cfg)
          failures_and_resets)
        (failure_at 115)
        (moment_at 116)).1
    ≡ true
unfolding new_auth_failure_burst_rule text_eq ◌-ℤ◌ evaluate_auth_burst reset_auth_burst
    is_auth_failure burst_key contains lower observe window_at lookup insert new_window add
    update_all evict_older evict count_within scan retain evict_loop scan_loop
evaluate_auth_burst_with_resets_example =
    evaluate_auth_burst_with_resets sample_runtime burst_cfg (pos 0) failures_and_resets
      (failure_at 115) (moment_at 116) calls-InOrder ((omega arith, (omega arith, tt)))
      (omega arith)
