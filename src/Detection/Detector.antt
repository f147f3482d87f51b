-- ===== src/Detection/Detector.antt =====
-- The implementations of domain.Detector (internal/domain/interfaces.go), each with its state.
use log_analytics_and_anomal.Prelude.{List, [], ◌∷◌, Option, none, Text}
use log_analytics_and_anomal.Domain.{Time, LogEntry, Anomaly}
use log_analytics_and_anomal.Runtime.{Runtime}
use log_analytics_and_anomal.Detection.Config.{Moment}
use log_analytics_and_anomal.Detection.ErrorRate.{
  ErrorRateRule, error_rate_name, evaluate_error_rate, reset_error_rate,
}
use log_analytics_and_anomal.Detection.Latency.{
  LatencyThresholdRule, latency_name, evaluate_latency, reset_latency,
}
use log_analytics_and_anomal.Detection.RepeatedFailure.{
  RepeatedFailureRule, repeated_failure_name, evaluate_repeated_failure, reset_repeated_failure,
}
use log_analytics_and_anomal.Detection.AuthBurst.{
  AuthFailureBurstRule, auth_failure_name, evaluate_auth_burst, reset_auth_burst,
}
use log_analytics_and_anomal.Detection.OffHours.{
  OffHoursAccessRule, off_hours_name, evaluate_off_hours,
}
use log_analytics_and_anomal.Detection.ServiceSilence.{
  ServiceSilenceRule, service_silence_name, evaluate_service_silence, check_silence,
  reset_service_silence,
}

pub data Detector : Type 0 where
  error_rate : ErrorRateRule → Detector
  latency : LatencyThresholdRule → Detector
  repeated_failure : RepeatedFailureRule → Detector
  auth_burst : AuthFailureBurstRule → Detector
  off_hours : OffHoursAccessRule → Detector
  service_silence : ServiceSilenceRule → Detector

unfoldable name_of : Detector → Text
name_of (error_rate r) = error_rate_name
name_of (latency r) = latency_name
name_of (repeated_failure r) = repeated_failure_name
name_of (auth_burst r) = auth_failure_name
name_of (off_hours r) = off_hours_name
name_of (service_silence r) = service_silence_name

abbrev with_state {ℓ} : {R : Type 0} {A : Type ℓ} → (R → Detector) → R × A → Detector × A
with_state c (r, a) = (c r, a)

unfoldable pub evaluate_detector :
    Runtime → Detector → LogEntry → Moment → Detector × Option Anomaly
unfolding evaluate_error_rate evaluate_latency evaluate_repeated_failure evaluate_auth_burst
    evaluate_off_hours evaluate_service_silence
evaluate_detector rt (error_rate r) e at = with_state error_rate (evaluate_error_rate r e at)
evaluate_detector rt (latency r) e at = with_state latency (evaluate_latency rt r e at)
evaluate_detector rt (repeated_failure r) e at =
    with_state repeated_failure (evaluate_repeated_failure rt r e at)
evaluate_detector rt (auth_burst r) e at = with_state auth_burst (evaluate_auth_burst rt r e at)
evaluate_detector rt (off_hours r) e at = (off_hours r, evaluate_off_hours r e at)
evaluate_detector rt (service_silence r) e at =
    (service_silence (evaluate_service_silence r e at), none)

-- Each rule reads the clock for each of its keys; the auth rule does so twice.
unfoldable pub reset_detector : Detector → (Text → Time) → (Text → Time) → Detector
reset_detector (error_rate r) now later = error_rate (reset_error_rate r now)
reset_detector (latency r) now later = latency (reset_latency r now)
reset_detector (repeated_failure r) now later = repeated_failure (reset_repeated_failure r now)
reset_detector (auth_burst r) now later = auth_burst (reset_auth_burst r now later)
reset_detector (off_hours r) now later = off_hours r
reset_detector (service_silence r) now later = service_silence (reset_service_silence r now)

-- The first silence rule of the list is the engine's `silenceRule`: the same object as in the list,
-- so that what CheckSilence does to it is seen there.
unfoldable pub check_first_silence : List Detector → (Text → Moment) → List Detector × List Anomaly
check_first_silence [] at = ([], [])
check_first_silence (service_silence r ∷ ds) at =
    let (r', anomalies) = check_silence r at in (service_silence r' ∷ ds, anomalies)
check_first_silence (d ∷ ds) at =
    let (ds', anomalies) = check_first_silence ds at in (d ∷ ds', anomalies)
