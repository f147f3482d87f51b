-- ===== src/Api.antt =====
-- internal/api: the handlers, from the decoded query parameters to the response. The stores that
-- they call are parameters; routing, middleware and the encoding of bodies are left out.
pub mod Params
pub mod Response
pub mod Logs
pub mod Anomalies
pub mod Health
pub mod Pages
