-- ===== src/Tests/Rules.antt =====
-- The rules, on a burst of failed logins of one service.
use log_analytics_and_anomal.Prelude.{◌≡◌, refl, true, text, text_eq, ℤ, arith, ◌-ℤ◌, ◌+ℤ◌, ◌*ℤ◌}
use log_analytics_and_anomal.Assoc.{lookup}
use log_analytics_and_anomal.Runtime.{
  utc, has_prefix, contains, lower, hour_of, float_ge, float_of_int,
}
use log_analytics_and_anomal.Detection.Recording.{is_some, run}
use log_analytics_and_anomal.Detection.ErrorRate.{new_error_rate_rule, evaluate_error_rate}
use log_analytics_and_anomal.Detection.ErrorRate.Firing.{
  error_rate_recording, evaluate_error_rate_exact,
}
use log_analytics_and_anomal.Detection.Latency.{
  new_latency_threshold_rule, evaluate_latency, duration_ms,
}
use log_analytics_and_anomal.Detection.Latency.Firing.{latency_recording, evaluate_latency_exact}
use log_analytics_and_anomal.Detection.RepeatedFailure.{
  new_repeated_failure_rule, evaluate_repeated_failure,
}
use log_analytics_and_anomal.Detection.RepeatedFailure.Firing.{
  repeated_failure_recording, evaluate_repeated_failure_exact,
}
use log_analytics_and_anomal.Detection.AuthBurst.{
  new_auth_failure_burst_rule, evaluate_auth_burst, is_auth_failure, burst_key,
}
use log_analytics_and_anomal.Detection.AuthBurst.Firing.{
  auth_burst_recording, evaluate_auth_burst_exact,
}
use log_analytics_and_anomal.Detection.OffHours.{OffHoursAccessRule, evaluate_off_hours}
use log_analytics_and_anomal.Detection.OffHours.Hours.{
  evaluate_off_hours_exact, evaluate_off_hours_night_shift,
}
use log_analytics_and_anomal.Detection.Fingerprint.{
  fingerprint, is_word, fingerprint_forgets_number,
}
use log_analytics_and_anomal.Tests.Samples.{
  sample_runtime, failure_at, moment_at, past_failures, error_cfg, latency_cfg, repeated_cfg,
  burst_cfg, night_cfg,
}

evaluate_error_rate_exact_example :
    is_some
      (evaluate_error_rate
        (run error_rate_recording (new_error_rate_rule error_cfg) past_failures)
        (failure_at 30)
        (moment_at 31)).1
    ≡ true
unfolding text_eq ◌-ℤ◌
evaluate_error_rate_exact_example =
    evaluate_error_rate_exact error_cfg past_failures (failure_at 30) (moment_at 31)

evaluate_latency_exact_example :
    is_some
      (evaluate_latency sample_runtime
        (run
          (latency_recording sample_runtime)
          (new_latency_threshold_rule latency_cfg)
          past_failures)
        (failure_at 30)
        (moment_at 31)).1
    ≡ true
unfolding text_eq ◌-ℤ◌ duration_ms lookup float_ge float_of_int ◌*ℤ◌
evaluate_latency_exact_example =
    evaluate_latency_exact sample_runtime latency_cfg past_failures (failure_at 30) (moment_at 31)

evaluate_repeated_failure_exact_example :
    is_some
      (evaluate_repeated_failure sample_runtime
        (run
          (repeated_failure_recording sample_runtime)
          (new_repeated_failure_rule repeated_cfg)
          past_failures)
        (failure_at 30)
        (moment_at 31)).1
    ≡ true
unfolding text_eq ◌-ℤ◌ fingerprint lower
evaluate_repeated_failure_exact_example =
    evaluate_repeated_failure_exact sample_runtime repeated_cfg past_failures (failure_at 30)
      (moment_at 31)

evaluate_auth_burst_exact_example :
    is_some
      (evaluate_auth_burst sample_runtime
        (run
          (auth_burst_recording sample_runtime)
          (new_auth_failure_burst_rule burst_cfg)
          past_failures)
        (failure_at 30)
        (moment_at 31)).1
    ≡ true
unfolding text_eq ◌-ℤ◌ is_auth_failure burst_key new_auth_failure_burst_rule lookup contains lower
evaluate_auth_burst_exact_example =
    evaluate_auth_burst_exact sample_runtime burst_cfg past_failures (failure_at 30) (moment_at 31)

abbrev night_rule : OffHoursAccessRule
night_rule = record { loc = utc; cfg = night_cfg }

evaluate_off_hours_exact_example :
    is_some (evaluate_off_hours night_rule (failure_at 30) (moment_at 31)) ≡ true
unfolding text_eq lookup has_prefix hour_of ◌+ℤ◌ evaluate_off_hours
evaluate_off_hours_exact_example =
    evaluate_off_hours_exact night_rule (failure_at 30) (moment_at 31)

evaluate_off_hours_night_shift_example :
    is_some (evaluate_off_hours night_rule (failure_at 30) (moment_at 31)) ≡ true
unfolding text_eq lookup has_prefix evaluate_off_hours
evaluate_off_hours_night_shift_example =
    evaluate_off_hours_night_shift night_rule (failure_at 30) (moment_at 31) (omega arith)

hour_of-minute_before : hour_of (ℤ.negsuc 59999999999) ≡ 23
unfolding hour_of
hour_of-minute_before = refl

fingerprint-words :
    fingerprint sample_runtime (text "id DEADBEEF at 17ms, 404") ≡ text "id X at 17ms, X"
unfolding fingerprint lower
fingerprint-words = refl

fingerprint_forgets_number_example :
    fingerprint sample_runtime (text "failed 17 times")
    ≡ fingerprint sample_runtime (text "failed 4000 times")
unfolding is_word lower
fingerprint_forgets_number_example =
    fingerprint_forgets_number sample_runtime (text "failed") b' ' b'1' (text "7") b'4' (text "000")
      b' ' (text "times") refl refl refl refl
