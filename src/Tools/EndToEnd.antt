-- ===== src/Tools/EndToEnd.antt =====
-- cmd/e2etest/main.go: the generators of log messages and the phases. `now` is the reading of the
-- clock, and `format` the printing of a time by RFC 3339.
pub mod Phases
pub mod Replay
pub mod Sending
pub mod Drain
pub mod Shares
pub mod Settling
use log_analytics_and_anomal.Prelude.{
  ℕ, ◌+◌, ◌==◌, Bool, List, [], ◌∷◌, ◌++◌, Option, Text, text, ℤ, pos, ◌*ℤ◌, if◌then◌else◌,
}
use log_analytics_and_anomal.Domain.{Time, Duration, Float64, string, int}
use log_analytics_and_anomal.Elasticsearch.Documents.{decimal}
use log_analytics_and_anomal.Tools.Random.{Rand, Gen, ◌>>=◌, return, intn, pick}
use log_analytics_and_anomal.Tools.Message.{LogMsg, sprintf}
use log_analytics_and_anomal.Tools.Schedule.{active}
use log_analytics_and_anomal.Tools.Producer.{Event, Sent, worker}
use log_analytics_and_anomal.Tools.TestData.Run.{per}
use log_analytics_and_anomal.Tools.LoadTest.Run.{tenths}

abbrev pub all_services : List Text
all_services =
    text "api-gateway"
    ∷ text "payment-service"
    ∷ text "auth-service"
    ∷ text "order-service"
    ∷ text "inventory-service"
    ∷ []

abbrev pub all_paths : List Text
all_paths =
    text "/api/v1/orders" ∷ text "/api/v1/products" ∷ text "/health" ∷ text "/api/v1/checkout" ∷ []

abbrev pub all_ips : List Text
all_ips = text "10.0.1.1" ∷ text "10.0.1.2" ∷ text "10.0.1.3" ∷ text "172.16.0.5" ∷ []

abbrev pub normal_levels : List Text
normal_levels = text "info" ∷ text "info" ∷ text "info" ∷ text "debug" ∷ []

pub record Phase (S : Type 0) : Type 0 where
  pub name : Text
  pub start : Duration
  pub finish : Duration
  pub generate : Time → Gen S LogMsg
  pub rate_multiplier : Float64
  pub expect_anomaly : Text

module _ {S : Type 0} (rnd : Rand S) (format : Time → Text) where
  -- The path of the message and the one of the field are drawn apart.
  unfoldable pub normal_log : Time → Gen S LogMsg
  normal_log now = do
    level ← pick rnd normal_levels
    service ← pick rnd all_services
    said ← pick rnd all_paths
    path ← pick rnd all_paths
    n ← intn rnd 200
    ip ← pick rnd all_ips
    return (record {
      timestamp = format now;
      level = level;
      service = service;
      message = sprintf (text "GET %s 200 OK") said;
      fields =
          (text "path", string path)
          ∷ (text "latency_ms", int (pos (n + 10)))
          ∷ (text "source_ip", string ip)
          ∷ [];
    })

  unfoldable pub error_log : Time → Gen S LogMsg
  error_log now = do
    ip ← pick rnd all_ips
    return (record {
      timestamp = format now;
      level = text "error";
      service = text "payment-service";
      message = text "internal server error: database connection timeout";
      fields =
          (text "path", string (text "/api/v1/checkout"))
          ∷ (text "source_ip", string ip)
          ∷ (text "error", string (text "dial tcp: connection refused"))
          ∷ [];
    })

  unfoldable pub auth_fail_log : Time → Gen S LogMsg
  auth_fail_log now = return (record {
    timestamp = format now;
    level = text "error";
    service = text "auth-service";
    message = text "authentication failure: invalid credentials";
    fields =
        (text "source_ip", string (text "10.66.6.6"))
        ∷ (text "username", string (text "admin"))
        ∷ (text "auth_result", string (text "failure"))
        ∷ (text "path", string (text "/api/v1/login"))
        ∷ [];
  })

  unfoldable pub high_latency_log : Time → Gen S LogMsg
  high_latency_log now = do
    n ← intn rnd 1500
    path ← pick rnd all_paths
    ip ← pick rnd all_ips
    return (record {
      timestamp = format now;
      level = text "warn";
      service = text "api-gateway";
      message = text "slow response: " ++ decimal (pos (n + 600)) ++ text " ms";
      fields =
          (text "path", string path)
          ∷ (text "latency_ms", int (pos (n + 600)))
          ∷ (text "source_ip", string ip)
          ∷ [];
    })

  unfoldable pub repeated_fail_log : Time → Gen S LogMsg
  repeated_fail_log now = do
    ip ← pick rnd all_ips
    return (record {
      timestamp = format now;
      level = text "error";
      service = text "order-service";
      message = text "handler panic: nil pointer dereference at /api/v1/checkout";
      fields = (text "path", string (text "/api/v1/checkout")) ∷ (text "source_ip", string ip) ∷ [];
    })

  -- `if rand.Intn(n) == 0 { return normalLog() }` before another generator
  unfoldable pub mostly : ℕ → (Time → Gen S LogMsg) → Time → Gen S LogMsg
  mostly n other now = do i ← intn rnd n; if i == 0 then normal_log now else other now

  -- The six segments of a run of duration `d`.
  unfoldable pub build_phases : Duration → List (Phase S)
  build_phases d =
      let seg = per d 6 in
      let at : ℕ → Duration = λ n. pos n *ℤ seg in
      record {
        name = text "warm-up";
        start = at 0;
        finish = at 1;
        generate = normal_log;
        rate_multiplier = tenths 10;
        expect_anomaly = [];
      }
      ∷ record {
        name = text "error-spike";
        start = at 1;
        finish = at 2;
        generate = mostly 3 error_log;
        rate_multiplier = tenths 15;
        expect_anomaly = text "error_rate_spike";
      }
      ∷ record {
        name = text "auth-burst";
        start = at 2;
        finish = at 3;
        generate = mostly 4 auth_fail_log;
        rate_multiplier = tenths 20;
        expect_anomaly = text "auth_failure_burst";
      }
      ∷ record {
        name = text "high-latency";
        start = at 3;
        finish = at 4;
        generate = mostly 4 high_latency_log;
        rate_multiplier = tenths 10;
        expect_anomaly = text "latency_threshold";
      }
      ∷ record {
        name = text "repeated-fail";
        start = at 4;
        finish = at 5;
        generate = mostly 3 repeated_fail_log;
        rate_multiplier = tenths 12;
        expect_anomaly = text "repeated_failure";
      }
      ∷ record {
        name = text "wind-down";
        start = at 5;
        finish = at 6;
        generate = normal_log;
        rate_multiplier = tenths 7;
        expect_anomaly = [];
      }
      ∷ []

module _ {S : Type 0} where
  unfoldable pub active_phase : List (Phase S) → Duration → Option (Phase S)
  unfolding active
  active_phase phases elapsed = active (λ p. p.start) (λ p. p.finish) phases elapsed

-- The goroutine of a worker. At a tick it compares the tick's own time with the deadline.
abbrev pub test_worker :
    {S : Type 0}
    → (Float64 → ℤ)
    → (LogMsg → Bool)
    → ℤ
    → List (Phase S)
    → Time
    → Time
    → List (Event × (ℕ → Time))
    → Sent
    → Gen S Sent
test_worker outside fails rate phases start_time deadline =
    worker (λ p. p.start) (λ p. p.finish) (λ p. p.generate) (λ p. p.rate_multiplier) outside fails
      rate phases start_time deadline
