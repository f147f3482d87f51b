-- ===== src/Detection/Config.antt =====
-- internal/detection/config.go, and what one call of a rule's Evaluate reads from outside.
-- The numbers of the configuration are ints, which a file may also give as negative.
use log_analytics_and_anomal.Prelude.{Bool, List, ℤ, Text}
use log_analytics_and_anomal.Domain.{Time, Duration}

pub record ErrorRateConfig : Type 0 where
  pub enabled : Bool
  pub threshold : ℤ
  pub window : Duration
  pub severity : Text

pub record LatencyConfig : Type 0 where
  pub enabled : Bool
  pub threshold_ms : ℤ
  pub breach_rate_percent : ℤ
  pub window : Duration
  pub severity : Text

pub record RepeatedFailureConfig : Type 0 where
  pub enabled : Bool
  pub threshold : ℤ
  pub window : Duration
  pub severity : Text

pub record AuthBurstConfig : Type 0 where
  pub enabled : Bool
  pub threshold : ℤ
  pub window : Duration
  pub ip_field : Text
  pub user_field : Text
  pub severity : Text

pub record OffHoursConfig : Type 0 where
  pub enabled : Bool
  pub business_hours_start : ℤ
  pub business_hours_end : ℤ
  pub timezone : Text
  pub sensitive_paths : List Text
  pub severity : Text

pub record ServiceSilenceConfig : Type 0 where
  pub enabled : Bool
  pub silence_after : Duration
  pub check_interval : Duration
  pub min_log_count : ℤ
  pub severity : Text

pub record DetectionRulesConfig : Type 0 where
  pub error_rate : ErrorRateConfig
  pub latency : LatencyConfig
  pub repeated_failure : RepeatedFailureConfig
  pub auth_burst : AuthBurstConfig
  pub off_hours : OffHoursConfig
  pub service_silence : ServiceSilenceConfig

pub record DetectionConfig : Type 0 where
  pub window_duration : Duration
  pub eviction_interval : Duration
  pub cooldown_duration : Duration
  pub warmup_multiplier : ℤ
  pub rules : DetectionRulesConfig

-- The clock where the call counts its window (or where ServiceSilenceRule stores it), the clock
-- where it fills in DetectedAt, and the UUID that it draws.
pub record Moment : Type 0 where
  pub counted : Time
  pub detected : Time
  pub uuid : Text
