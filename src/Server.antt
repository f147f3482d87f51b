-- ===== src/Server.antt =====
-- cmd/server/wire.go: the construction of the rules and the engine, and the loop of a pipeline
-- worker. Whether the bulk indexer takes an item is read anew with each message.
pub mod Work
pub mod Lifecycle
use log_analytics_and_anomal.Prelude.{
  ℕ, suc, Bool, true, false, List, [], ◌∷◌, ◌++◌, Option, none, some, Text, ℤ,
}
use log_analytics_and_anomal.Domain.{Time, RawMessage, LogEntry}
use log_analytics_and_anomal.Runtime.{Runtime}
use log_analytics_and_anomal.Detection.Config.{DetectionConfig}
use log_analytics_and_anomal.Detection.Detector.{
  Detector, error_rate, latency, repeated_failure, auth_burst, off_hours, service_silence,
}
use log_analytics_and_anomal.Detection.ErrorRate.{new_error_rate_rule}
use log_analytics_and_anomal.Detection.Latency.{new_latency_threshold_rule}
use log_analytics_and_anomal.Detection.RepeatedFailure.{new_repeated_failure_rule}
use log_analytics_and_anomal.Detection.AuthBurst.{new_auth_failure_burst_rule}
use log_analytics_and_anomal.Detection.OffHours.{OffHoursAccessRule, new_off_hours_access_rule}
use log_analytics_and_anomal.Detection.ServiceSilence.{new_service_silence_rule}
use log_analytics_and_anomal.Detection.Engine.{
  DetectorEngine, Reading, new_detector_engine, evaluate,
}
use log_analytics_and_anomal.Pipeline.{Structured, Input, process_message}
use log_analytics_and_anomal.Elasticsearch.Documents.{Encoding, BulkItem, index_log}

abbrev detectors_with : DetectionConfig → OffHoursAccessRule → List Detector
detectors_with cfg rule =
    error_rate (new_error_rate_rule cfg.rules.error_rate)
    ∷ latency (new_latency_threshold_rule cfg.rules.latency)
    ∷ repeated_failure (new_repeated_failure_rule cfg.rules.repeated_failure)
    ∷ auth_burst (new_auth_failure_burst_rule cfg.rules.auth_burst)
    ∷ off_hours rule
    ∷ service_silence (new_service_silence_rule cfg.rules.service_silence)
    ∷ []

abbrev engine_with : DetectionConfig → Time → Option OffHoursAccessRule → Option DetectorEngine
engine_with cfg now none = none
engine_with cfg now (some rule) = some (new_detector_engine (detectors_with cfg rule) cfg now)

-- The rules and the engine; none is the error of the off-hours rule's zone, with which Run returns.
unfoldable pub build_engine : Runtime → DetectionConfig → Time → Option DetectorEngine
build_engine rt cfg now = engine_with cfg now (new_off_hours_access_rule rt cfg.rules.off_hours)

-- What a worker has done, and the engine that it feeds.
pub record Worker : Type 0 where
  pub parse_errors : ℕ
  -- the labels with which logs_consumed_total was incremented
  pub consumed : List (Text × ℤ)
  -- the items that the bulk indexer has taken
  pub indexed : List BulkItem
  -- the errors of IndexLog, which are only logged
  pub index_errors : ℕ
  pub engine : DetectorEngine

-- What the handling of one message reads from outside.
pub record Arrival : Type 0 where
  pub msg : RawMessage
  pub input : Input
  pub now : Time
  -- whether Add of the bulk indexer, called now and in this context, takes an item
  pub takes : BulkItem → Bool
  pub at : ℕ → Reading

abbrev pub taken_item : (BulkItem → Bool) → Option BulkItem → List BulkItem
taken_item takes none = []
taken_item takes (some item) = elim (takes item) [ true ↦ item ∷ [] | false ↦ [] ]

abbrev index_failed : (BulkItem → Bool) → Option BulkItem → ℕ → ℕ
index_failed takes none errors = suc errors
index_failed takes (some item) errors = elim (takes item) [ true ↦ errors | false ↦ suc errors ]

module _ (rt : Runtime) (enc : Encoding) (unmarshal : List ℕ → Option Structured) where
  -- One round of the loop over Messages().
  unfoldable pub work : Worker → Arrival → Worker
  work w a =
      let r = process_message rt unmarshal a.msg a.input w.parse_errors in
      let item = index_log enc r.0 in
      record {
        parse_errors = r.1;
        consumed = w.consumed ++ (a.msg.topic, a.msg.partition) ∷ [];
        indexed = w.indexed ++ taken_item a.takes item;
        index_errors = index_failed a.takes item w.index_errors;
        engine = evaluate rt w.engine r.0 a.now a.at;
      }

  unfoldable pub work_all : Worker → List Arrival → Worker
  unfolding work
  work_all w [] = w
  work_all w (a ∷ rest) = work_all (work w a) rest
