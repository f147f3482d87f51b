-- ===== src/Tools/LoadTest.antt =====
-- cmd/loadtest/main.go: the generators of log messages. Each draws in the order of the source's calls;
-- `now` is the reading of the clock, and `format` the printing of a time by RFC 3339.
pub mod Run
pub mod Phases
use log_analytics_and_anomal.Prelude.{
  ℕ, ◌+◌, ◌==◌, List, [], ◌∷◌, ◌++◌, Option, none, some, Text, text, pos, if◌then◌else◌,
}
use log_analytics_and_anomal.Domain.{Time, Duration, Float64, string, int}
use log_analytics_and_anomal.Elasticsearch.Documents.{decimal}
use log_analytics_and_anomal.Tools.Random.{Rand, Gen, ◌>>=◌, return, intn, pick}
use log_analytics_and_anomal.Tools.Message.{LogMsg, sprintf}

abbrev pub services : List Text
services =
    text "api-gateway"
    ∷ text "payment-service"
    ∷ text "auth-service"
    ∷ text "order-service"
    ∷ text "inventory-service"
    ∷ text "notification-service"
    ∷ []

abbrev pub paths : List Text
paths =
    text "/api/v1/orders"
    ∷ text "/api/v1/products"
    ∷ text "/api/v1/users"
    ∷ text "/health"
    ∷ text "/metrics"
    ∷ []

-- sensititivePaths
abbrev pub sensitive_paths : List Text
sensitive_paths = text "/admin" ∷ text "/api/v1/users" ∷ text "/internal" ∷ []

abbrev pub source_ips : List Text
source_ips =
    text "10.0.1.1" ∷ text "10.0.1.2" ∷ text "10.0.1.3" ∷ text "10.0.2.100" ∷ text "172.16.0.5" ∷ []

abbrev pub normal_levels : List Text
normal_levels = text "info" ∷ text "info" ∷ text "info" ∷ text "debug" ∷ []

abbrev pub non_inventory : List Text
non_inventory =
    text "api-gateway"
    ∷ text "payment-service"
    ∷ text "auth-service"
    ∷ text "order-service"
    ∷ text "notification-service"
    ∷ []

module _ {S : Type 0} (rnd : Rand S) (format : Time → Text) where
  unfoldable pub normal_log : Time → Gen S LogMsg
  normal_log now = do
    service ← pick rnd services
    path ← pick rnd paths
    n ← intn rnd 200
    level ← pick rnd normal_levels
    ip ← pick rnd source_ips
    return (record {
      timestamp = format now;
      level = level;
      service = service;
      message = sprintf (text "GET %s 200 OK") path;
      fields =
          (text "path", string path)
          ∷ (text "latency_ms", int (pos (n + 10)))
          ∷ (text "source_ip", string ip)
          ∷ [];
    })

  unfoldable pub error_log : Text → Time → Gen S LogMsg
  error_log svc now = do
    ip ← pick rnd source_ips
    return (record {
      timestamp = format now;
      level = text "error";
      service = svc;
      message = text "internal server error: database connection timeout";
      fields =
          (text "path", string (text "/api/v1/checkout"))
          ∷ (text "source_ip", string ip)
          ∷ (text "error", string (text "dial tcp: connection refused"))
          ∷ [];
    })

  unfoldable pub auth_failure_log : Text → Text → Text → Time → Gen S LogMsg
  auth_failure_log svc attacker_ip username now = return (record {
    timestamp = format now;
    level = text "error";
    service = svc;
    message = text "authentication failure: invalid credentials";
    fields =
        (text "source_ip", string attacker_ip)
        ∷ (text "username", string username)
        ∷ (text "auth_result", string (text "failure"))
        ∷ (text "path", string (text "/api/v1/login"))
        ∷ [];
  })

  unfoldable pub high_latency_log : Text → Time → Gen S LogMsg
  high_latency_log svc now = do
    n ← intn rnd 1500
    path ← pick rnd paths
    ip ← pick rnd source_ips
    return (record {
      timestamp = format now;
      level = text "warn";
      service = svc;
      message = text "slow response: " ++ decimal (pos (n + 600)) ++ text " ms";
      fields =
          (text "path", string path)
          ∷ (text "latency_ms", int (pos (n + 600)))
          ∷ (text "source_ip", string ip)
          ∷ [];
    })

  unfoldable pub repeated_failure_log : Text → Text → Time → Gen S LogMsg
  repeated_failure_log svc endpoint now = do
    ip ← pick rnd source_ips
    return (record {
      timestamp = format now;
      level = text "error";
      service = svc;
      message = sprintf (text "handler panic: nil pointer dereference at %s") endpoint;
      fields = (text "path", string endpoint) ∷ (text "source_ip", string ip) ∷ [];
    })

  -- The path of the message and the one of the field are drawn apart.
  unfoldable pub off_hours_log : Text → Time → Gen S LogMsg
  off_hours_log svc now = do
    said ← pick rnd sensitive_paths
    path ← pick rnd sensitive_paths
    ip ← pick rnd source_ips
    return (record {
      timestamp = format now;
      level = text "info";
      service = svc;
      message = text "GET " ++ said ++ text " 200 OK";
      fields = (text "path", string path) ∷ (text "source_ip", string ip) ∷ [];
    })
