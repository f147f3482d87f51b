-- ===== src/Tests/Tools.antt =====
-- The tools, with a small generator of random numbers.
use log_analytics_and_anomal.Prelude.{
  ℕ, suc, ◌+◌, ◌*◌, ◌/◌, ◌%◌, ◌<◌, ◌≡◌, refl, ap, Bool, true, false, List, [], ◌∷◌, ◌++◌, map,
  Option, none, some, Text, text, ℤ, pos, negsuc, ◌-ℤ◌, ◌+ℤ◌, arith, take, replicate,
}
use log_analytics_and_anomal.Domain.{Time, Float64}
use log_analytics_and_anomal.Runtime.{Runtime, utc, shift_for, round_shift, float_of_int}
use log_analytics_and_anomal.Runtime.Floats.{float_mul, float_div, int_of_float, round_to}
use log_analytics_and_anomal.Pipeline.{Input}
use log_analytics_and_anomal.Detection.Config.{AuthBurstConfig, OffHoursConfig}
use log_analytics_and_anomal.Detection.Recording.{is_some}
use log_analytics_and_anomal.Detection.ErrorRate.{new_error_rate_rule}
use log_analytics_and_anomal.Detection.RepeatedFailure.{new_repeated_failure_rule}
use log_analytics_and_anomal.Detection.AuthBurst.{new_auth_failure_burst_rule}
use log_analytics_and_anomal.Detection.OffHours.{OffHoursAccessRule, evaluate_off_hours}
use log_analytics_and_anomal.Tools.Random.{Rand, Always}
use log_analytics_and_anomal.Tools.Message.{LogMsg}
use log_analytics_and_anomal.Tools.Delivery.{received}
use log_analytics_and_anomal.Tools.TestData.Phases.{
  hundredths, build_phases, total_weight, weighted, pick_generator,
}
use log_analytics_and_anomal.Tools.TestData.{
  sensitive_paths, normal_log, warn_log, auth_fail_log, error_spike_log, repeated_fail_log,
  high_latency_log, off_hours_log,
}
use log_analytics_and_anomal.Tools.TestData.Choice.{pick_generator_exact}
use log_analytics_and_anomal.Tools.TestData.Scripted.{
  IsAttack, IsErrorOf, IsCrash, IsSlow, scripted_logs_count,
}
use log_analytics_and_anomal.Tools.TestData.Quiet.{IsQuiet, normal_traffic-IsQuiet}
use log_analytics_and_anomal.Tools.TestData.Night.{off_hours_log_fires}
use log_analytics_and_anomal.Tools.TestData.Run.{generate, share_of, phase_counts, time_at}
use log_analytics_and_anomal.Tools.TestData.Complete.{Wrote, HasTime, generate_complete}
use log_analytics_and_anomal.Tools.EndToEnd.Replay.{Line, Replay, replay_batch_size, replay}
use log_analytics_and_anomal.Tools.EndToEnd.Sending.{replay_sends}
use log_analytics_and_anomal.Tools.EndToEnd.Drain.{Poll, expired, failed, counted, settled, drain}
use log_analytics_and_anomal.Tools.EndToEnd.Settling.{first_stop, drain_settles}
use log_analytics_and_anomal.Tests.Samples.{
  sample_runtime, raw, moment_at, error_cfg, repeated_cfg, burst_cfg, night_cfg,
}

abbrev rand : Rand ℕ
rand = record { draw = λ n s. (s % n, s * 5 + 3); draw_lt = λ n s h. omega arith }

abbrev outside : Float64 → ℤ
outside f = negsuc 9223372036854775807

abbrev format : Time → Text
format t = text "2026-01-15T02:00:00Z"

abbrev half_hour : ℤ
half_hour = pos 1800000000000

abbrev always_encodes : LogMsg → Bool
always_encodes m = true

has_time :
    HasTime rand outside always_encodes format
      (λ m. refl)
      half_hour
      (phase_counts rand outside always_encodes (pos 7) (pos 7) (build_phases rand format))
unfolding phase_counts build_phases share_of time_at hundredths float_div float_mul round_to
    float_of_int shift_for round_shift int_of_float ◌+ℤ◌ ◌-ℤ◌
has_time = (
  λ u. omega arith,
  (
    λ u. omega arith,
    (
      λ u. omega arith,
      (λ u. omega arith, (λ u. omega arith, (λ u. omega arith, (λ u. omega arith, tt)))),
    ),
  ),
)

generate_complete_example :
    Always (generate rand format outside always_encodes true (pos 7) half_hour) (Wrote 7)
generate_complete_example =
    generate_complete rand outside always_encodes format (λ m. refl) 7 half_hour (omega arith)
      has_time

-- Of 100 the generator draws 1, which lies below the first weight.
pick_generator_exact_example :
    pick_generator rand
      (weighted rand format 90 (normal_log rand format)
        ∷ weighted rand format 10 (warn_log rand format)
        ∷ [])
      1
    ≡ some (normal_log rand format, 8)
unfolding total_weight
pick_generator_exact_example =
    pick_generator_exact rand [] (weighted rand format 90 (normal_log rand format))
      (weighted rand format 10 (warn_log rand format) ∷ []) 1 (omega arith) (omega arith)
      (omega arith)

abbrev sample_input : Input
sample_input = record { uuid = text "u"; now = pos 5 }

abbrev source_cfg : AuthBurstConfig
source_cfg = record burst_cfg { ip_field = text "source_ip" }

scripted_logs_count_example :
    Always
      (auth_fail_log rand format (pos 9))
      (IsAttack rand format sample_runtime raw sample_input source_cfg)
    × Always
        (error_spike_log rand format (pos 9))
        (IsErrorOf rand format sample_runtime raw sample_input (text "payment-service"))
    × Always
        (repeated_fail_log rand format (pos 9))
        (IsCrash rand format sample_runtime raw sample_input)
    × Always
        (high_latency_log rand format (pos 9))
        (IsSlow rand format sample_runtime raw sample_input 500)
scripted_logs_count_example =
    scripted_logs_count rand format sample_runtime raw sample_input source_cfg 500 refl
      (omega arith) (pos 9)

abbrev day_cfg : OffHoursConfig
day_cfg = record night_cfg {
  business_hours_start = pos 9;
  business_hours_end = pos 17;
  sensitive_paths = sensitive_paths;
}

abbrev day_rule : OffHoursAccessRule
day_rule = record { loc = utc; cfg = day_cfg }

normal_traffic-IsQuiet_example :
    Always (normal_log rand format (pos 9)) (
      IsQuiet sample_runtime raw sample_input
        (moment_at 9)
        (new_error_rate_rule error_cfg)
        (new_repeated_failure_rule repeated_cfg)
        (new_auth_failure_burst_rule burst_cfg)
        day_rule
        500)
    × Always (warn_log rand format (pos 9)) (
        IsQuiet sample_runtime raw sample_input
          (moment_at 9)
          (new_error_rate_rule error_cfg)
          (new_repeated_failure_rule repeated_cfg)
          (new_auth_failure_burst_rule burst_cfg)
          day_rule
          500)
normal_traffic-IsQuiet_example =
    normal_traffic-IsQuiet sample_runtime raw sample_input (moment_at 9)
      (new_error_rate_rule error_cfg) (new_repeated_failure_rule repeated_cfg)
      (new_auth_failure_burst_rule burst_cfg) day_rule 500 rand format (pos 9) refl (omega arith)
      (omega arith)

-- Texts of a list of one number, for whole seconds.
abbrev print_seconds : Time → Text
print_seconds (pos n) = n / 1000000000 ∷ []
print_seconds (negsuc n) = []

abbrev parse_seconds : Text → Option Time
parse_seconds [] = none
parse_seconds (n ∷ rest) = some (pos (n * 1000000000))

abbrev clock_runtime : Runtime
clock_runtime = record sample_runtime { parse_rfc3339 = parse_seconds }

print-parse :
    (n : ℕ)
    → n < 315537897600
    → clock_runtime.parse_rfc3339 (print_seconds (pos (n * 1000000000)))
      ≡ some (pos (n * 1000000000))
print-parse n h =
    let same : n * 1000000000 / 1000000000 ≡ n = omega arith in
    ap (λ k. some (pos (k * 1000000000))) same

off_hours_log_fires_example :
    Always (off_hours_log rand print_seconds (pos 63904039200000000000)) (λ m.
      is_some
        (evaluate_off_hours day_rule (received clock_runtime raw sample_input m) (moment_at 9))
      ≡ true)
off_hours_log_fires_example =
    off_hours_log_fires rand print_seconds clock_runtime raw sample_input day_rule (moment_at 9)
      63904039200000000000 print-parse refl refl (omega arith) (omega arith)

abbrev two_lines : List Line
two_lines = (1 ∷ []) ∷ (2 ∷ []) ∷ []

-- At 15 lines a second a batch is one line: a tick sends the first, and two ticks both.
replay_sends_example :
    let start : Replay = record { idx = 0; payloads = [] } in
    let cut = replay (map suc) two_lines (replay_batch_size (pos 15)) (true ∷ false ∷ []) start in
    let whole = replay (map suc) two_lines (replay_batch_size (pos 15)) (replicate 2 true) start in
    (cut.payloads ≡ map (map suc) (take cut.idx two_lines))
    × (whole.payloads ≡ map (map suc) two_lines)
unfolding replay_batch_size
replay_sends_example = replay_sends (map suc) two_lines (pos 15) (true ∷ false ∷ []) 2 (omega arith)

-- Nine of ten are there four times in a row, though a poll failed between; the tenth comes too late.
abbrev slow_polls : List Poll
slow_polls =
    counted (pos 4)
    ∷ counted (pos 9)
    ∷ failed
    ∷ counted (pos 9)
    ∷ counted (pos 9)
    ∷ counted (pos 9)
    ∷ []

drain_settles_example :
    (cur : ℕ) × (first_stop 10 [] (4 ∷ 9 ∷ 9 ∷ 9 ∷ 9 ∷ 10 ∷ []) ≡ some cur)
    × (drain (pos 10) (slow_polls ++ counted (pos 10) ∷ expired ∷ []) 0 (negsuc 0)
        ≡ settled (pos cur))
drain_settles_example =
    drain_settles 10 slow_polls 10 (expired ∷ []) (omega arith)
      (tt, (tt, (tt, (tt, (tt, (tt, tt)))))) (omega arith)

stops_at_nine : first_stop 10 [] (4 ∷ 9 ∷ 9 ∷ 9 ∷ 9 ∷ 10 ∷ []) ≡ some 9
unfolding first_stop
stops_at_nine = refl
