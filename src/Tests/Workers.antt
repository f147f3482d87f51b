-- ===== src/Tests/Workers.antt =====
-- A worker and its engine.
use log_analytics_and_anomal.Prelude.{
  ℕ, ◌≡◌, ◌≢◌, ◌⊎◌, refl, Bool, List, [], ◌∷◌, ◌++◌, Option, none, some, text, ℤ, pos,
}
use log_analytics_and_anomal.Domain.{LogEntry}
use log_analytics_and_anomal.Detection.Config.{DetectionConfig}
use log_analytics_and_anomal.Detection.Engine.{new_detector_engine}
use log_analytics_and_anomal.Detection.Engine.Trace.{run}
use log_analytics_and_anomal.Pipeline.{Structured}
use log_analytics_and_anomal.Elasticsearch.Documents.{
  Encoding, BulkItem, decimal, document_key, index_log,
}
use log_analytics_and_anomal.Elasticsearch.Documents.Ids.{index_log_ids}
use log_analytics_and_anomal.Server.{Worker, Arrival, work_all}
use log_analytics_and_anomal.Server.Work.{calls, items_of, work_all_exact}
use log_analytics_and_anomal.Tests.Samples.{
  sample_runtime, raw, failure_at, moment_at, error_cfg, latency_cfg, repeated_cfg, burst_cfg,
  night_cfg, silence_cfg,
}

decimal-minus : decimal (pos 0) ++ decimal (ℤ.negsuc 41) ≡ text "0-42"
unfolding decimal
decimal-minus = refl

abbrev sample_encoding : Encoding
sample_encoding = record {
  marshal_log = λ e. some (text "log");
  marshal_anomaly = λ a. some (text "anomaly");
  sha256_hex = λ s. s;
  format_day = λ t. text "2024.01.02";
}

abbrev item_of : LogEntry → BulkItem
item_of e = record {
  action = text "index";
  index = text "logs-2024.01.02";
  document_id = document_key e.source;
  body = text "log";
}

index_log_ids_example :
    ((raw.partition ≡ raw.partition) × (raw.offset ≡ raw.offset))
    ⊎ ((document_key raw ≢ document_key raw) × (document_key raw ≡ document_key raw))
unfolding index_log
index_log_ids_example =
    index_log_ids sample_encoding (failure_at 10) (failure_at 20) {x = item_of (failure_at 10)}
      {y = item_of (failure_at 20)} refl refl refl

abbrev server_config : DetectionConfig
server_config = record {
  window_duration = pos 60;
  eviction_interval = pos 10;
  cooldown_duration = pos 5;
  warmup_multiplier = pos 2;
  rules = record {
    error_rate = error_cfg;
    latency = latency_cfg;
    repeated_failure = repeated_cfg;
    auth_burst = burst_cfg;
    off_hours = night_cfg;
    service_silence = silence_cfg;
  };
}

abbrev no_decoding : List ℕ → Option Structured
no_decoding payload = none

abbrev idle : Worker
idle = record {
  parse_errors = 0;
  consumed = [];
  indexed = [];
  index_errors = 0;
  engine = new_detector_engine [] server_config (pos 0);
}

abbrev arrival : Arrival
arrival = record {
  msg = raw;
  input = record { uuid = text "u"; now = pos 5 };
  now = pos 300;
  takes = λ item. Bool.true;
  at = λ i. record { moment = moment_at 300; now = pos 300; stamp = pos 300 };
}

work_all_exact_example :
    let w = work_all sample_runtime sample_encoding no_decoding idle (arrival ∷ []) in
    (w.parse_errors ≡ 1)
    × (w.consumed ≡ (text "logs", pos 0) ∷ [])
    × (w.indexed ≡ items_of sample_runtime sample_encoding no_decoding (arrival ∷ []))
    × (w.engine
        ≡ run sample_runtime idle.engine
            (calls sample_runtime sample_encoding no_decoding (arrival ∷ [])))
work_all_exact_example =
    work_all_exact sample_runtime sample_encoding no_decoding idle (arrival ∷ [])
