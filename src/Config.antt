-- ===== src/Config.antt =====
-- internal/config/config.go: the configuration, its defaults and Load. viper is not under src/: what
-- reading the file gives, and what Unmarshal makes of the defaults (with the file and the environment
-- that it knows of), are parameters.
use log_analytics_and_anomal.Prelude.{
  Bool, true, List, [], ◌∷◌, Option, none, some, Text, text, ℤ, pos,
}
use log_analytics_and_anomal.Domain.{Duration}
use log_analytics_and_anomal.Detection.Config.{DetectionConfig}

pub record ApiConfig : Type 0 where
  pub port : ℤ

pub record EsConfig : Type 0 where
  pub addresses : List Text
  pub username : Text
  pub password : Text
  pub max_idle_conns : ℤ
  pub response_timeout : Duration

pub record KafkaConfig : Type 0 where
  pub brokers : List Text
  pub topic : Text
  pub group_id : Text
  pub initial_offset : Text

pub record MetricsConfig : Type 0 where
  pub port : ℤ

pub record LogConfig : Type 0 where
  pub level : Text

pub record Config : Type 0 where
  pub kafka : KafkaConfig
  pub metrics : MetricsConfig
  pub log : LogConfig
  pub detection : DetectionConfig
  pub elasticsearch : EsConfig
  pub api : ApiConfig

-- A value that SetDefault is given.
pub data Setting : Type 0 where
  flag : Bool → Setting
  number : ℤ → Setting
  words : Text → Setting
  several : List Text → Setting

-- The calls of SetDefault, in order.
abbrev pub defaults : List (Text × Setting)
defaults =
    (text "kafka.brokers", several (text "localhost:9092" ∷ []))
    ∷ (text "kafka.topic", words (text "application-logs"))
    ∷ (text "kafka.group_id", words (text "log-analytics"))
    ∷ (text "kafka.initial_offset", words (text "oldest"))
    ∷ (text "metrics.port", number (pos 2112))
    ∷ (text "log.level", words (text "info"))
    ∷ (text "detection.window_duration", words (text "5m"))
    ∷ (text "detection.eviction_interval", words (text "1m"))
    ∷ (text "detection.cooldown_duration", words (text "15m"))
    ∷ (text "detection.warmup_multiplier", number (pos 2))
    ∷ (text "detection.rules.error_rate.enabled", flag true)
    ∷ (text "detection.rules.error_rate.threshold", number (pos 10))
    ∷ (text "detection.rules.error_rate.window", words (text "5m"))
    ∷ (text "detection.rules.error_rate.severity", words (text "high"))
    ∷ (text "detection.rules.latency.enabled", flag true)
    ∷ (text "detection.rules.latency.threshold_ms", number (pos 500))
    ∷ (text "detection.rules.latency.breach_rate_percent", number (pos 20))
    ∷ (text "detection.rules.latency.window", words (text "5m"))
    ∷ (text "detection.rules.latency.severity", words (text "medium"))
    ∷ (text "detection.rules.repeated_failure.enabled", flag true)
    ∷ (text "detection.rules.repeated_failure.threshold", number (pos 5))
    ∷ (text "detection.rules.repeated_failure.window", words (text "5m"))
    ∷ (text "detection.rules.repeated_failure.severity", words (text "medium"))
    ∷ (text "detection.rules.auth_burst.enabled", flag true)
    ∷ (text "detection.rules.auth_burst.threshold", number (pos 10))
    ∷ (text "detection.rules.auth_burst.window", words (text "5m"))
    ∷ (text "detection.rules.auth_burst.ip_field", words (text "source_ip"))
    ∷ (text "detection.rules.auth_burst.user_field", words (text "username"))
    ∷ (text "detection.rules.auth_burst.severity", words (text "high"))
    ∷ (text "detection.rules.off_hours.enabled", flag true)
    ∷ (text "detection.rules.off_hours.business_hours_start", number (pos 9))
    ∷ (text "detection.rules.off_hours.business_hours_end", number (pos 17))
    ∷ (text "detection.rules.off_hours.timezone", words (text "UTC"))
    ∷ (
      text "detection.rules.off_hours.sensitive_paths",
      several (text "/admin" ∷ text "/api/v1/users" ∷ text "/internal" ∷ []),
    )
    ∷ (text "detection.rules.off_hours.severity", words (text "medium"))
    ∷ (text "detection.rules.service_silence.enabled", flag true)
    ∷ (text "detection.rules.service_silence.silence_after", words (text "5m"))
    ∷ (text "detection.rules.service_silence.check_interval", words (text "30s"))
    ∷ (text "detection.rules.service_silence.min_log_count", number (pos 5))
    ∷ (text "detection.rules.service_silence.severity", words (text "critical"))
    ∷ (text "elasticsearch.addresses", several (text "http://localhost:9200" ∷ []))
    ∷ (text "elasticsearch.max_idle_conns", number (pos 10))
    ∷ (text "elasticsearch.response_timeout", words (text "10s"))
    ∷ (text "api.port", number (pos 8080))
    ∷ []

-- What ReadInConfig gives: no error, that there is no file, or another error.
pub data ReadResult : Type 0 where
  was_read no_file unreadable : ReadResult

-- What Load returns.
pub data LoadResult : Type 0 where
  loaded : Config → LoadResult
  read_error unmarshal_error : LoadResult

module _ (unmarshal : List (Text × Setting) → Option Config) where
  abbrev decoded : Option Config → LoadResult
  decoded none = unmarshal_error
  decoded (some cfg) = loaded cfg

  -- A missing file is no error.
  unfoldable pub load : ReadResult → LoadResult
  load unreadable = read_error
  load no_file = decoded (unmarshal defaults)
  load was_read = decoded (unmarshal defaults)
