-- ===== src/Tools/TestData/Scripted.antt =====
-- The logs that cmd/generate-testdata/main.go scripts for a rule, before that rule.
use log_analytics_and_anomal.Prelude.{
  ℕ, ◌+◌, ◌≤◌, ◌≡◌, refl, ◌∙◌, true, some, Text, text, text_eq, pos, arith,
}
use log_analytics_and_anomal.Assoc.{lookup}
use log_analytics_and_anomal.Domain.{Time, RawMessage}
use log_analytics_and_anomal.Runtime.{Runtime, lower, contains, has_prefix, float_ge, float_of_int}
use log_analytics_and_anomal.Runtime.Rounding.{float_ge-small}
use log_analytics_and_anomal.Pipeline.{Input}
use log_analytics_and_anomal.Detection.Config.{AuthBurstConfig}
use log_analytics_and_anomal.Detection.Latency.{duration_ms}
use log_analytics_and_anomal.Detection.AuthBurst.{is_auth_failure, burst_key}
use log_analytics_and_anomal.Tools.Random.{Rand, Always, intn_then, pick_then}
use log_analytics_and_anomal.Tools.Message.{LogMsg}
use log_analytics_and_anomal.Tools.Delivery.{received}
use log_analytics_and_anomal.Tools.TestData.{
  paths, normal_ip, error_messages, usernames, auth_fail_log, error_spike_log, high_latency_log,
  repeated_fail_log,
}

module _ {S : Type 0} (rnd : Rand S) (format : Time → Text) (rt : Runtime) (raw : RawMessage)
    (input : Input) where
  -- An authentication failure of the one attacker.
  abbrev pub IsAttack : AuthBurstConfig → LogMsg → Type 0
  IsAttack cfg m =
      (is_auth_failure rt (received rt raw input m) ≡ true)
      × (burst_key cfg (received rt raw input m) ≡ text "10.66.6.6")

  auth_fail_log-IsAttack :
      (cfg : AuthBurstConfig)
      → cfg.ip_field ≡ text "source_ip"
      → (ts : Time) → Always (auth_fail_log rnd format ts) (IsAttack cfg)
  unfolding auth_fail_log is_auth_failure burst_key lookup text_eq lower contains has_prefix
  auth_fail_log-IsAttack cfg h ts =
      pick_then rnd (IsAttack cfg) usernames _ (omega arith) (λ u s. (refl, rw h refl))

  -- An error of the service `service`.
  abbrev pub IsErrorOf : Text → LogMsg → Type 0
  IsErrorOf service m =
      let e = received rt raw input m in (e.level ≡ text "error") × (e.service ≡ service)

  error_spike_log-IsErrorOf :
      (ts : Time) → Always (error_spike_log rnd format ts) (IsErrorOf (text "payment-service"))
  unfolding error_spike_log
  error_spike_log-IsErrorOf ts =
      pick_then rnd _ error_messages _ (omega arith)
        (λ message. pick_then rnd _ normal_ip _ (omega arith) (λ ip s. (refl, refl)))

  abbrev crash : Text
  crash = text "handler panic: nil pointer dereference at /api/v1/checkout"

  -- The one failure of the one service.
  abbrev pub IsCrash : LogMsg → Type 0
  IsCrash m = IsErrorOf (text "order-service") m × ((received rt raw input m).message ≡ crash)

  repeated_fail_log-IsCrash : (ts : Time) → Always (repeated_fail_log rnd format ts) IsCrash
  unfolding repeated_fail_log
  repeated_fail_log-IsCrash ts =
      pick_then rnd _ normal_ip _ (omega arith) (λ ip s. ((refl, refl), refl))

  -- A request of the service `api-gateway` that took `least` milliseconds or longer.
  abbrev pub IsSlow : ℕ → LogMsg → Type 0
  IsSlow least m =
      let e = received rt raw input m in
      (e.service ≡ text "api-gateway")
      × ((n : ℕ) × (duration_ms rt e ≡ some (float_of_int (pos n)))
          × (float_ge (float_of_int (pos n)) (float_of_int (pos least)) ≡ true))

  high_latency_log-IsSlow :
      (least : ℕ)
      → least ≤ 600
      → (ts : Time) → Always (high_latency_log rnd format ts) (IsSlow least)
  unfolding high_latency_log duration_ms lookup text_eq
  high_latency_log-IsSlow least h ts = intn_then rnd _ 1500 _ (omega arith) (λ n lt.
      pick_then rnd _ paths _ (omega arith) (λ path.
        pick_then rnd _ normal_ip _ (omega arith) (λ ip s. (
          refl,
          (
            n + 600,
            refl,
            float_ge-small (n + 600) least (omega arith) (omega arith) ∙ ground arith,
          ),
        ))))

  -- Whatever is drawn, the generators that are scripted for a rule do not panic, and what the server
  -- receives of them is what the rule counts: authentication failures under the one address of the
  -- attacker (for a rule that takes its key from `source_ip`), errors of `payment-service`, one and
  -- the same failure of `order-service`, and requests of `api-gateway` that breach any latency
  -- threshold up to 600 milliseconds.
  pub scripted_logs_count :
      (cfg : AuthBurstConfig) (least : ℕ)
      → cfg.ip_field ≡ text "source_ip"
      → least ≤ 600
      → (ts : Time)
      → Always (auth_fail_log rnd format ts) (IsAttack cfg)
        × Always (error_spike_log rnd format ts) (IsErrorOf (text "payment-service"))
        × Always (repeated_fail_log rnd format ts) IsCrash
        × Always (high_latency_log rnd format ts) (IsSlow least)
  scripted_logs_count cfg least field le ts = (
    auth_fail_log-IsAttack cfg field ts,
    error_spike_log-IsErrorOf ts,
    repeated_fail_log-IsCrash ts,
    high_latency_log-IsSlow least le ts,
  )
