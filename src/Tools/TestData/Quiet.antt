-- ===== src/Tools/TestData/Quiet.antt =====
-- The normal and the warning logs of cmd/generate-testdata/main.go, before the rules.
use log_analytics_and_anomal.Prelude.{
  ℕ, ◌+◌, ◌<◌, ◌≤◌, ◌^◌, ◌==◌, ◌≡◌, refl, ap, ap₂, ◌∙◌, false, not, ◌&&◌, [], ◌∷◌, none, some, Text,
  text_key, text, text_eq, pos, arith, length, if◌then◌else◌,
}
use log_analytics_and_anomal.Assoc.{lookup}
use log_analytics_and_anomal.Domain.{Time, RawMessage, LogEntry, string, int, string_in}
use log_analytics_and_anomal.Runtime.{Runtime, has_prefix, float_ge, float_of_int, hour_in}
use log_analytics_and_anomal.Runtime.Rounding.{float_ge-small}
use log_analytics_and_anomal.Pipeline.{Input}
use log_analytics_and_anomal.Detection.Config.{Moment}
use log_analytics_and_anomal.Detection.Recording.{is_some}
use log_analytics_and_anomal.Detection.Latency.{duration_ms}
use log_analytics_and_anomal.Detection.AuthBurst.{
  AuthFailureBurstRule, is_auth_failure, evaluate_auth_burst,
}
use log_analytics_and_anomal.Detection.ErrorRate.{ErrorRateRule, evaluate_error_rate}
use log_analytics_and_anomal.Detection.RepeatedFailure.{
  RepeatedFailureRule, evaluate_repeated_failure,
}
use log_analytics_and_anomal.Detection.OffHours.{
  OffHoursAccessRule, evaluate_off_hours, is_sensitive_path,
}
use log_analytics_and_anomal.Detection.OffHours.Hours.{
  evaluate_off_hours_exact, has_path, in_business_hours,
}
use log_analytics_and_anomal.Tools.Random.{Rand, Always, All, intn_then, pick_then, pick_where}
use log_analytics_and_anomal.Tools.Message.{LogMsg}
use log_analytics_and_anomal.Tools.Delivery.{received}
use log_analytics_and_anomal.Tools.TestData.{
  services, paths, normal_ip, sensitive_paths, info_messages, debug_messages, normal_log, warn_log,
}

abbrev IsOpen : Text → Type 0
IsOpen path = is_sensitive_path sensitive_paths path ≡ false

All-IsOpen : All IsOpen paths
unfolding is_sensitive_path has_prefix
All-IsOpen = (refl, (refl, (refl, (refl, (refl, (refl, tt))))))

never_fires :
    (r : OffHoursAccessRule) (e : LogEntry) (at : Moment) (path : Text)
    → lookup (text "path") e.fields ≡ some (string path)
    → r.cfg.sensitive_paths ≡ sensitive_paths
    → IsOpen path
    → is_some (evaluate_off_hours r e at) ≡ false
never_fires r e at path found same open_path =
    evaluate_off_hours_exact r e at
    ∙ ap₂
        (λ v ps.
          has_path (is_sensitive_path ps) (string_in v)
          && not (in_business_hours r.cfg (hour_in r.loc e.timestamp)))
        found same
    ∙ ap
        (λ a.
          not (text_eq path []) && a && not (in_business_hours r.cfg (hour_in r.loc e.timestamp)))
        open_path
    ∙ ground arith

-- The error rate, repeated failure and authentication rules are as before and give no anomaly, the
-- off-hours rule gives none, and the entry's duration is below `least` milliseconds. (The latency rule
-- records it among its totals, and the silence rule counts it: neither is said here.)
module _ (rt : Runtime) (raw : RawMessage) (input : Input) (at : Moment) (r1 : ErrorRateRule)
    (r2 : RepeatedFailureRule) (r3 : AuthFailureBurstRule) (r4 : OffHoursAccessRule)
    (least : ℕ) where
  abbrev pub IsQuiet : LogMsg → Type 0
  IsQuiet m =
      let e = received rt raw input m in
      (evaluate_error_rate r1 e at ≡ (r1, none))
      × (evaluate_repeated_failure rt r2 e at ≡ (r2, none))
      × (evaluate_auth_burst rt r3 e at ≡ (r3, none))
      × (is_some (evaluate_off_hours r4 e at) ≡ false)
      × ((n : ℕ) × (duration_ms rt e ≡ some (float_of_int (pos n)))
          × (float_ge (float_of_int (pos n)) (float_of_int (pos least)) ≡ false))

  no_error :
      (m : LogMsg)
      → text_eq m.level (text "error") ≡ false
      → let e = received rt raw input m in
        (evaluate_error_rate r1 e at ≡ (r1, none))
        × (evaluate_repeated_failure rt r2 e at ≡ (r2, none))
        × (evaluate_auth_burst rt r3 e at ≡ (r3, none))
  unfolding evaluate_error_rate evaluate_repeated_failure evaluate_auth_burst is_auth_failure
  no_error m h = ground arith

  -- A message as the two generators write it.
  abbrev request : Text → Text → Text → Text → Text → ℕ → Text → LogMsg
  request time level service words path n ip = record {
    timestamp = time;
    level = level;
    service = service;
    message = words;
    fields =
        (text "path", string path)
        ∷ (text "latency_ms", int (pos n))
        ∷ (text "source_ip", string ip)
        ∷ [];
  }

  quiet :
      (time level service words path : Text) (n : ℕ) (ip : Text)
      → text_eq level (text "error") ≡ false
      → r4.cfg.sensitive_paths ≡ sensitive_paths
      → IsOpen path
      → n < least
      → least < 2 ^ 53
      → IsQuiet (request time level service words path n ip)
  unfolding duration_ms lookup text_eq
  quiet time level service words path n ip known same open_path lt small =
      let m = request time level service words path n ip in
      let (a, b, c) = no_error m known in
      (
        a,
        b,
        c,
        never_fires r4 (received rt raw input m) at path refl same open_path,
        (n, refl, float_ge-small n least (omega arith) small ∙ ground arith),
      )

  module _ {S : Type 0} (rnd : Rand S) (format : Time → Text) where
    level_lem :
        (n : ℕ)
        → let level = if n == 0 then text "debug" else text "info" in
          text_eq level (text "error") ≡ false
    unfolding text_eq
    level_lem n = ground arith

    warn_lem : text_eq (text "warn") (text "error") ≡ false
    unfolding text_eq
    warn_lem = refl

    templates_lem : (n : ℕ) → 0 < length (if n == 0 then debug_messages else info_messages)
    templates_lem n = ground arith

    normal_log-IsQuiet :
        (ts : Time)
        → r4.cfg.sensitive_paths ≡ sensitive_paths
        → 500 ≤ least
        → least < 2 ^ 53
        → Always (normal_log rnd format ts) IsQuiet
    unfolding normal_log
    normal_log-IsQuiet ts same slow small = intn_then rnd IsQuiet 5 _ (omega arith) (λ n ln.
        pick_where rnd IsOpen IsQuiet paths _ (omega arith) All-IsOpen (λ path open_path.
          pick_then rnd IsQuiet _ _ (templates_lem n) (λ template.
            pick_then rnd IsQuiet services _ (omega arith) (λ service.
              intn_then rnd IsQuiet 200 _ (omega arith) (λ k lk.
                pick_then rnd IsQuiet normal_ip _ (omega arith) (λ ip s.
                  quiet _ _ _ _ path (k + 5) ip (level_lem n) same open_path (omega arith)
                    small))))))

    warn_log-IsQuiet :
        (ts : Time)
        → r4.cfg.sensitive_paths ≡ sensitive_paths
        → 500 ≤ least
        → least < 2 ^ 53
        → Always (warn_log rnd format ts) IsQuiet
    unfolding warn_log
    warn_log-IsQuiet ts same slow small =
        pick_where rnd IsOpen IsQuiet paths _ (omega arith) All-IsOpen (λ path open_path.
          intn_then rnd IsQuiet 300 _ (omega arith) (λ k lk.
            pick_then rnd IsQuiet services _ (omega arith) (λ service.
              pick_then rnd IsQuiet normal_ip _ (omega arith) (λ ip s.
                quiet _ _ _ _ path (k + 200) ip warn_lem same open_path (omega arith) small))))

    -- Whatever is drawn, normal_log and warn_log do not panic, and of their log, as the server receives
    -- it, the following holds in any state of the rules, where the off-hours rule has the generator's
    -- sensitive paths: the error rate, repeated failure and authentication rules do not change and give
    -- no anomaly, the off-hours rule gives none, and the log's duration is a number below `least`, for
    -- any `least` from 500 to below 2^53 milliseconds.
    pub normal_traffic-IsQuiet :
        (ts : Time)
        → r4.cfg.sensitive_paths ≡ sensitive_paths
        → 500 ≤ least
        → least < 2 ^ 53
        → Always (normal_log rnd format ts) IsQuiet × Always (warn_log rnd format ts) IsQuiet
    normal_traffic-IsQuiet ts same slow small =
        (normal_log-IsQuiet ts same slow small, warn_log-IsQuiet ts same slow small)
