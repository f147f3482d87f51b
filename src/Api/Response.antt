-- ===== src/Api/Response.antt =====
-- internal/api/response.go, with the bodies of all the handlers as one type.
use log_analytics_and_anomal.Prelude.{ℕ, List, Text, ℤ}
use log_analytics_and_anomal.Domain.{LogEntry, Anomaly}

-- PagedResponse, over either kind of data.
pub record PagedResponse (A : Type 0) : Type 0 where
  pub items : List A
  pub total : ℤ
  pub page : ℤ
  pub size : ℤ

pub data Body : Type 0 where
  -- ErrorResponse: the message and the status once more
  error_body : Text → ℕ → Body
  status_body : Text → Body
  logs_body : PagedResponse LogEntry → Body
  log_body : LogEntry → Body
  anomalies_body : PagedResponse Anomaly → Body
  anomaly_body : Anomaly → Body

pub record Response : Type 0 where
  pub status : ℕ
  pub body : Body

abbrev pub write_json : ℕ → Body → Response
write_json status body = record { status = status; body = body }

abbrev pub write_error : ℕ → Text → Response
write_error status msg = write_json status (error_body msg status)

-- What a store returns: a value, ErrNotFound (internal/domain/errors.go), or another error.
pub data Stored {ℓ} (A : Type ℓ) : Type ℓ where
  found : A → Stored A
  not_found : Stored A
  failed : Text → Stored A
