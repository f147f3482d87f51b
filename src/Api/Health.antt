-- ===== src/Api/Health.antt =====
-- internal/api/health.go and the ready flag of internal/api/server.go.
use log_analytics_and_anomal.Prelude.{Bool, true, false, Option, none, some, text, if◌then◌else◌}
use log_analytics_and_anomal.Api.Response.{Response, write_json, write_error, status_body}

-- The client's Ping within the timeout: none without a client, else whether it succeeded.
unfoldable handle_health : Option Bool → Response
handle_health none = write_error 503 (text "unhealthy")
handle_health (some false) = write_error 503 (text "unhealthy")
handle_health (some true) = write_json 200 (status_body (text "ok"))

-- Server.ready, an atomic flag that SetReady sets and nothing clears.
pub record Readiness : Type 0 where
  pub ready : Bool

abbrev set_ready : Readiness → Readiness
set_ready s = record s { ready = true }

unfoldable handle_ready : Readiness → Response
handle_ready s =
    if s.ready
    then write_json 200 (status_body (text "ready"))
    else write_error 503 (text "not ready")
