-- ===== src/Tools/TestData.antt =====
-- cmd/generate-testdata/main.go: the generators of log messages. Each draws in the order of the
-- source's calls.
pub mod Phases
pub mod Run
pub mod Complete
pub mod Shares
pub mod Levels
pub mod Quiet
pub mod Night
pub mod Scripted
pub mod Choice
use log_analytics_and_anomal.Prelude.{
  ℕ, ◌+◌, ◌-◌, ◌*◌, ◌/◌, ◌%◌, ◌==◌, List, [], ◌∷◌, ◌++◌, Text, text, pos, negsuc, ◌+ℤ◌,
  if◌then◌else◌,
}
use log_analytics_and_anomal.Domain.{Time, string, int}
use log_analytics_and_anomal.Elasticsearch.Documents.{decimal}
use log_analytics_and_anomal.Tools.Random.{Rand, Gen, ◌>>=◌, return, intn, pick}
use log_analytics_and_anomal.Tools.Message.{LogMsg, sprintf}

abbrev pub services : List Text
services =
    text "api-gateway"
    ∷ text "payment-service"
    ∷ text "auth-service"
    ∷ text "order-service"
    ∷ text "inventory-service"
    ∷ []

abbrev pub paths : List Text
paths =
    text "/api/v1/orders"
    ∷ text "/api/v1/products"
    ∷ text "/health"
    ∷ text "/api/v1/checkout"
    ∷ text "/api/v1/login"
    ∷ text "/metrics"
    ∷ []

abbrev pub normal_ip : List Text
normal_ip =
    text "10.0.1.1"
    ∷ text "10.0.1.2"
    ∷ text "10.0.1.3"
    ∷ text "172.16.0.5"
    ∷ text "10.0.2.10"
    ∷ text "10.0.2.11"
    ∷ []

abbrev pub info_messages : List Text
info_messages =
    text "GET %s 200 OK"
    ∷ text "POST %s 201 Created"
    ∷ text "GET %s 200 OK (cached)"
    ∷ text "PUT %s 200 OK"
    ∷ text "DELETE %s 204 No Content"
    ∷ []

abbrev pub debug_messages : List Text
debug_messages =
    text "cache hit for %s"
    ∷ text "connection pool: active=3 idle=7"
    ∷ text "request tracing: span_id=%s"
    ∷ text "health check passed"
    ∷ text "gc cycle completed: freed 2.3MB"
    ∷ []

abbrev pub error_messages : List Text
error_messages =
    text "internal server error: database connection timeout"
    ∷ text "internal server error: connection pool exhausted"
    ∷ text "internal server error: query timeout after 30s"
    ∷ []

abbrev pub usernames : List Text
usernames = text "admin" ∷ text "root" ∷ text "administrator" ∷ text "sysadmin" ∷ []

abbrev pub sensitive_paths : List Text
sensitive_paths = text "/admin" ∷ text "/api/v1/users" ∷ text "/internal" ∷ []

-- t.Truncate(24 * time.Hour)
abbrev pub truncate_day : Time → Time
truncate_day (pos n) = pos (n - n % 86400000000000)
truncate_day (negsuc n) = negsuc ((n / 86400000000000 + 1) * 86400000000000 - 1)

-- The time of an off-hours log: at `h` of 0 and 1 and minute `m`, from 02:00 on.
abbrev pub off_hour : Time → ℕ → ℕ → Time
off_hour ts h m = truncate_day ts +ℤ pos ((2 + h) * 3600000000000) +ℤ pos (m * 60000000000)

module _ {S : Type 0} (rnd : Rand S) (format : Time → Text) where
  unfoldable pub normal_log : Time → Gen S LogMsg
  normal_log ts = do
    n ← intn rnd 5
    path ← pick rnd paths
    template ← pick rnd (if n == 0 then debug_messages else info_messages)
    service ← pick rnd services
    latency ← intn rnd 200
    ip ← pick rnd normal_ip
    return (record {
      timestamp = format ts;
      level = if n == 0 then text "debug" else text "info";
      service = service;
      message = sprintf template path;
      fields =
          (text "path", string path)
          ∷ (text "latency_ms", int (pos (latency + 5)))
          ∷ (text "source_ip", string ip)
          ∷ [];
    })

  unfoldable pub warn_log : Time → Gen S LogMsg
  warn_log ts = do
    path ← pick rnd paths
    n ← intn rnd 300
    service ← pick rnd services
    ip ← pick rnd normal_ip
    return (record {
      timestamp = format ts;
      level = text "warn";
      service = service;
      message = text "elevated latency: " ++ decimal (pos (n + 200)) ++ text " ms on " ++ path;
      fields =
          (text "path", string path)
          ∷ (text "latency_ms", int (pos (n + 200)))
          ∷ (text "source_ip", string ip)
          ∷ [];
    })

  unfoldable pub error_spike_log : Time → Gen S LogMsg
  error_spike_log ts = do
    message ← pick rnd error_messages
    ip ← pick rnd normal_ip
    return (record {
      timestamp = format ts;
      level = text "error";
      service = text "payment-service";
      message = message;
      fields =
          (text "path", string (text "/api/v1/checkout"))
          ∷ (text "source_ip", string ip)
          ∷ (text "error", string (text "dial tcp: connection refused"))
          ∷ [];
    })

  unfoldable pub auth_fail_log : Time → Gen S LogMsg
  auth_fail_log ts = do
    username ← pick rnd usernames
    return (record {
      timestamp = format ts;
      level = text "error";
      service = text "auth-service";
      message = text "authentication failure: invalid credentials";
      fields =
          (text "source_ip", string (text "10.66.6.6"))
          ∷ (text "username", string username)
          ∷ (text "auth_result", string (text "failure"))
          ∷ (text "path", string (text "/api/v1/login"))
          ∷ [];
    })

  unfoldable pub high_latency_log : Time → Gen S LogMsg
  high_latency_log ts = do
    n ← intn rnd 1500
    path ← pick rnd paths
    ip ← pick rnd normal_ip
    return (record {
      timestamp = format ts;
      level = text "warn";
      service = text "api-gateway";
      message = text "slow response: " ++ decimal (pos (n + 600)) ++ text " ms";
      fields =
          (text "path", string path)
          ∷ (text "latency_ms", int (pos (n + 600)))
          ∷ (text "source_ip", string ip)
          ∷ [];
    })

  unfoldable pub repeated_fail_log : Time → Gen S LogMsg
  repeated_fail_log ts = do
    ip ← pick rnd normal_ip
    return (record {
      timestamp = format ts;
      level = text "error";
      service = text "order-service";
      message = text "handler panic: nil pointer dereference at /api/v1/checkout";
      fields = (text "path", string (text "/api/v1/checkout")) ∷ (text "source_ip", string ip) ∷ [];
    })

  unfoldable pub off_hours_log : Time → Gen S LogMsg
  off_hours_log ts = do
    h ← intn rnd 2
    m ← intn rnd 60
    path ← pick rnd sensitive_paths
    service ← pick rnd services
    n ← intn rnd 100
    return (record {
      timestamp = format (off_hour ts h m);
      level = text "info";
      service = service;
      message = text "GET " ++ path ++ text " 200 OK";
      fields =
          (text "path", string path)
          ∷ (text "latency_ms", int (pos (n + 10)))
          ∷ (text "source_ip", string (text "192.168.1.99"))
          ∷ [];
    })
