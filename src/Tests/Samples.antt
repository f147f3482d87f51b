-- ===== src/Tests/Samples.antt =====
-- The values that the tests share.
use log_analytics_and_anomal.Prelude.{ℕ, Bool, List, [], ◌∷◌, none, some, text, pos}
use log_analytics_and_anomal.Domain.{RawMessage, LogEntry, string, int}
use log_analytics_and_anomal.Runtime.{Runtime, utc}
use log_analytics_and_anomal.Detection.Config.{
  ErrorRateConfig, LatencyConfig, RepeatedFailureConfig, AuthBurstConfig, OffHoursConfig,
  ServiceSilenceConfig, Moment,
}

abbrev pub sample_runtime : Runtime
sample_runtime = record {
  parse_float = λ s. none;
  unicode_lower = λ c. c;
  unicode_upper = λ c. c;
  load_location = λ s. some utc;
  parse_rfc3339 = λ s. none;
  text_of = λ bytes. bytes;
}

abbrev pub raw : RawMessage
raw = record {
  payload = text "boom";
  topic = text "logs";
  partition = pos 0;
  offset = pos 7;
  timestamp = pos 0;
}

-- A failed login of the service `pay`, from one address.
abbrev pub failure_at : ℕ → LogEntry
failure_at t = record {
  id = [];
  timestamp = pos t;
  level = text "error";
  service = text "pay";
  message = text "login failed 17 times";
  fields =
      (text "source_ip", string (text "10.0.0.1"))
      ∷ (text "duration_ms", int (pos 900))
      ∷ (text "path", string (text "/admin/users"))
      ∷ [];
  raw_source = [];
  source = raw;
}

abbrev pub moment_at : ℕ → Moment
moment_at t = record { counted = pos t; detected = pos t; uuid = text "u" }

abbrev pub error_cfg : ErrorRateConfig
error_cfg = record {
  enabled = Bool.true;
  threshold = pos 2;
  window = pos 100;
  severity = text "high";
}

abbrev pub latency_cfg : LatencyConfig
latency_cfg = record {
  enabled = Bool.true;
  threshold_ms = pos 500;
  breach_rate_percent = pos 50;
  window = pos 100;
  severity = text "medium";
}

abbrev pub repeated_cfg : RepeatedFailureConfig
repeated_cfg = record {
  enabled = Bool.true;
  threshold = pos 2;
  window = pos 100;
  severity = text "medium";
}

abbrev pub burst_cfg : AuthBurstConfig
burst_cfg = record {
  enabled = Bool.true;
  threshold = pos 2;
  window = pos 100;
  ip_field = [];
  user_field = [];
  severity = text "high";
}

-- Hours for a night shift.
abbrev pub night_cfg : OffHoursConfig
night_cfg = record {
  enabled = Bool.true;
  business_hours_start = pos 22;
  business_hours_end = pos 6;
  timezone = text "UTC";
  sensitive_paths = text "/admin" ∷ [];
  severity = text "medium";
}

abbrev pub silence_cfg : ServiceSilenceConfig
silence_cfg = record {
  enabled = Bool.true;
  silence_after = pos 50;
  check_interval = pos 10;
  min_log_count = pos 2;
  severity = text "critical";
}

abbrev pub past_failures : List (LogEntry × Moment)
past_failures = (failure_at 10, moment_at 11) ∷ (failure_at 20, moment_at 21) ∷ []
