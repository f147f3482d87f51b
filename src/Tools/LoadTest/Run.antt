-- ===== src/Tools/LoadTest/Run.antt =====
-- cmd/loadtest/main.go: the phases.
use log_analytics_and_anomal.Prelude.{
  ℕ, ◌*◌, ◌==◌, Bool, List, [], ◌∷◌, Option, Text, text, ℤ, pos, if◌then◌else◌,
}
use log_analytics_and_anomal.Domain.{Time, Duration, Float64}
use log_analytics_and_anomal.Runtime.{float_of_int}
use log_analytics_and_anomal.Runtime.Floats.{float_div}
use log_analytics_and_anomal.Tools.Random.{Rand, Gen, ◌>>=◌, return, intn, pick}
use log_analytics_and_anomal.Tools.Message.{LogMsg}
use log_analytics_and_anomal.Tools.Schedule.{active}
use log_analytics_and_anomal.Tools.Producer.{Event, Sent, worker}
use log_analytics_and_anomal.Tools.LoadTest.{
  non_inventory, normal_log, error_log, auth_failure_log, high_latency_log, repeated_failure_log,
  off_hours_log,
}

pub record Phase (S : Type 0) : Type 0 where
  pub name : Text
  pub start : Duration
  pub finish : Duration
  pub generate : Time → Gen S LogMsg
  pub rate_multiplier : Float64

abbrev pub seconds : ℕ → Duration
seconds n = pos (n * 1000000000)

-- A constant of one decimal: the nearest float.
unfoldable pub tenths : ℕ → Float64
tenths n = float_div (float_of_int (pos n)) (float_of_int (pos 10))

module _ {S : Type 0} (rnd : Rand S) (format : Time → Text) where
  -- `if rand.Intn(n) == 0 { return normalLog() }` before another generator
  unfoldable pub mostly : ℕ → (Time → Gen S LogMsg) → Time → Gen S LogMsg
  mostly n other now = do i ← intn rnd n; if i == 0 then normal_log rnd format now else other now

  -- The generator of the last phase, which leaves inventory-service out.
  unfoldable pub wind_down : Time → Gen S LogMsg
  wind_down now = do
    m ← normal_log rnd format now
    service ← pick rnd non_inventory
    return (record m { service = service })

  unfoldable pub build_phases : List (Phase S)
  build_phases =
      record {
        name = text "warm-up (normal traffic)";
        start = seconds 0;
        finish = seconds 60;
        generate = normal_log rnd format;
        rate_multiplier = tenths 10;
      }
      ∷ record {
        name = text "error rate spike — payment-service";
        start = seconds 60;
        finish = seconds 90;
        generate = mostly 3 (error_log rnd format (text "payment-service"));
        rate_multiplier = tenths 15;
      }
      ∷ record {
        name = text "auth failure burst — attacker 10.66.6.6";
        start = seconds 90;
        finish = seconds 120;
        generate =
            mostly 4
              (auth_failure_log rnd format (text "auth-service") (text "10.66.6.6") (text "admin"));
        rate_multiplier = tenths 20;
      }
      ∷ record {
        name = text "high latency — api-gateway";
        start = seconds 120;
        finish = seconds 180;
        generate = mostly 4 (high_latency_log rnd format (text "api-gateway"));
        rate_multiplier = tenths 10;
      }
      ∷ record {
        name = text "repeated failure — order-service /api/v1/checkout";
        start = seconds 180;
        finish = seconds 210;
        generate =
            mostly 3
              (repeated_failure_log rnd format (text "order-service") (text "/api/v1/checkout"));
        rate_multiplier = tenths 12;
      }
      ∷ record {
        name = text "off-hours sensitive path access";
        start = seconds 210;
        finish = seconds 270;
        generate = mostly 3 (off_hours_log rnd format (text "api-gateway"));
        rate_multiplier = tenths 10;
      }
      ∷ record {
        name = text "wind-down (inventory-service goes silent)";
        start = seconds 270;
        finish = seconds 300;
        generate = wind_down;
        rate_multiplier = tenths 7;
      }
      ∷ []

module _ {S : Type 0} where
  unfoldable pub current_phase : List (Phase S) → Duration → Option (Phase S)
  unfolding active
  current_phase phases elapsed = active (λ p. p.start) (λ p. p.finish) phases elapsed

-- The goroutine of a worker.
abbrev pub load_worker :
    {S : Type 0}
    → (Float64 → ℤ)
    → (LogMsg → Bool)
    → ℤ
    → List (Phase S)
    → Time
    → Time
    → List (Event × (ℕ → Time))
    → Sent
    → Gen S Sent
load_worker outside fails rate phases start_time deadline =
    worker (λ p. p.start) (λ p. p.finish) (λ p. p.generate) (λ p. p.rate_multiplier) outside fails
      rate phases start_time deadline
