-- ===== src/Tests/Cooldowns.antt =====
-- The cooldown and the engine.
use log_analytics_and_anomal.Prelude.{
  ℕ, ◌≡◌, refl, List, [], ◌∷◌, text, text_eq, pos, ◌-ℤ◌, ◌+ℤ◌, ◌*ℤ◌, wrap64, ◌≤ℤ◌, arith,
}
use log_analytics_and_anomal.Detection.Config.{DetectionConfig}
use log_analytics_and_anomal.Detection.Detector.{error_rate, service_silence}
use log_analytics_and_anomal.Detection.ErrorRate.{new_error_rate_rule}
use log_analytics_and_anomal.Detection.ServiceSilence.{new_service_silence_rule}
use log_analytics_and_anomal.Detection.Cooldown.{CooldownKey, cooldown_key}
use log_analytics_and_anomal.Detection.Cooldown.Spacing.{
  CooldownEvent, attempt, eviction, InOrder, admitted, admitted_spec, Spaced, admitted_exact,
  admitted-Spaced,
}
use log_analytics_and_anomal.Detection.Engine.{
  DetectorEngine, Reading, new_detector_engine, max_window_duration,
}
use log_analytics_and_anomal.Detection.Engine.Warmup.{warmup_outlasts_windows}
use log_analytics_and_anomal.Detection.Engine.Trace.{
  Call, evaluates, run, trace, drive, driven_part, run_driven,
}
use log_analytics_and_anomal.Tests.Samples.{
  sample_runtime, failure_at, moment_at, error_cfg, latency_cfg, repeated_cfg, burst_cfg, night_cfg,
  silence_cfg,
}

abbrev pay : CooldownKey
pay = record { rule_id = text "r"; service = text "pay" }

-- With a cooldown of 5: one passes, a second comes too early, a third late enough.
abbrev attempts_at : List CooldownEvent
attempts_at =
    attempt pay (pos 10) (pos 11)
    ∷ attempt pay (pos 13) (pos 13)
    ∷ eviction (λ key. pos 30)
    ∷ attempt pay (pos 31) (pos 32)
    ∷ []

attempts-InOrder : InOrder (pos 0) attempts_at
attempts-InOrder = (
  omega arith,
  omega arith,
  (
    omega arith,
    omega arith,
    ((λ key. omega arith), (pos 30, (λ key. omega arith), (omega arith, omega arith, tt))),
  ),
)

admitted_exact_example : admitted (pos 5) pay [] attempts_at ≡ pos 11 ∷ pos 32 ∷ []
unfolding text_eq ◌-ℤ◌ admitted_spec
admitted_exact_example = admitted_exact 5 pay (pos 0) attempts_at (omega arith) attempts-InOrder

admitted-Spaced_example : Spaced (pos 5) pay (admitted (pos 5) pay [] attempts_at)
admitted-Spaced_example = admitted-Spaced 5 pay (pos 0) attempts_at (omega arith) attempts-InOrder

abbrev sample_config : DetectionConfig
sample_config = record {
  window_duration = pos 60;
  eviction_interval = pos 10;
  cooldown_duration = pos 5;
  warmup_multiplier = pos 0;
  rules = record {
    error_rate = error_cfg;
    latency = latency_cfg;
    repeated_failure = repeated_cfg;
    auth_burst = burst_cfg;
    off_hours = night_cfg;
    service_silence = silence_cfg;
  };
}

abbrev sample_engine : DetectorEngine
sample_engine =
    new_detector_engine
      (error_rate (new_error_rate_rule error_cfg)
        ∷ service_silence (new_service_silence_rule silence_cfg)
        ∷ [])
      sample_config (pos 0)

abbrev reading_at : ℕ → ℕ → Reading
reading_at t i = record { moment = moment_at t; now = pos t; stamp = pos t }

abbrev three_failures : List Call
three_failures =
    evaluates (failure_at 290) (pos 300) (reading_at 300)
    ∷ evaluates (failure_at 301) (pos 302) (reading_at 302)
    ∷ evaluates (failure_at 303) (pos 304) (reading_at 304)
    ∷ []

run_driven_example :
    driven_part (run sample_runtime sample_engine three_failures)
    ≡ drive sample_engine.cooldown_dur
        (trace sample_runtime sample_engine three_failures)
        (driven_part sample_engine)
run_driven_example = run_driven sample_runtime sample_engine three_failures

warmup_outlasts_windows_example :
    (pos 7 +ℤ pos 100 ≤ℤ pos 207)
    × (pos 7 +ℤ pos 100 ≤ℤ pos 207)
    × (pos 7 +ℤ pos 100 ≤ℤ pos 207)
    × (pos 7 +ℤ pos 100 ≤ℤ pos 207)
    × (pos 7 +ℤ pos 50 ≤ℤ pos 207)
unfolding max_window_duration new_detector_engine ◌+ℤ◌ wrap64 ◌*ℤ◌
warmup_outlasts_windows_example =
    warmup_outlasts_windows [] sample_config (pos 7) (pos 207) 2 100 refl refl (omega arith) refl
