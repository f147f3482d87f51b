-- ===== src/Api/Logs.antt =====
-- internal/api/logs.go: the two handlers over a domain.LogStore.
use log_analytics_and_anomal.Prelude.{List, [], Text, text, text_eq, ℤ, pos, if◌then◌else◌}
use log_analytics_and_anomal.Domain.{LogEntry, LogQuery}
use log_analytics_and_anomal.Runtime.{Runtime}
use log_analytics_and_anomal.Api.Params.{
  Checked, accepted, refused, ◌>>=◌, Query, get, parse_int_param, parse_time_param,
}
use log_analytics_and_anomal.Api.Response.{
  Response, write_json, write_error, logs_body, log_body, Stored, found, not_found, failed,
}

-- The part of domain.LogStore that the handlers call.
pub record LogStore : Type 0 where
  pub search_logs : LogQuery → Stored (List LogEntry × ℤ)
  pub get_log : Text → Stored LogEntry

-- The parameters, in the order in which they are checked.
unfoldable pub log_query : Runtime → Query → Checked LogQuery
log_query rt q = do
  page ← parse_int_param q (text "page") (pos 1) (pos 1) (pos 10000)
  size ← parse_int_param q (text "size") (pos 20) (pos 1) (pos 1000)
  from ← parse_time_param rt q (text "from")
  to ← parse_time_param rt q (text "to")
  accepted (record {
    service = get q (text "service");
    level = get q (text "level");
    from = from;
    to = to;
    page = page;
    size = size;
  })

abbrev logs_response : LogQuery → Stored (List LogEntry × ℤ) → Response
logs_response q (found (entries, total)) =
    write_json 200
      (logs_body (record { items = entries; total = total; page = q.page; size = q.size }))
logs_response q not_found = write_error 500 (text "internal error")
logs_response q (failed e) = write_error 500 (text "internal error")

abbrev pub list_logs_with : LogStore → Checked LogQuery → Response
list_logs_with store (refused e) = write_error 400 e
list_logs_with store (accepted q) = logs_response q (store.search_logs q)

unfoldable pub handle_list_logs : Runtime → LogStore → Query → Response
unfolding log_query
handle_list_logs rt store q = list_logs_with store (log_query rt q)

abbrev log_response : Stored LogEntry → Response
log_response (found entry) = write_json 200 (log_body entry)
log_response not_found = write_error 404 (text "log entry not found")
log_response (failed e) = write_error 500 (text "internal error")

unfoldable pub handle_get_log : LogStore → Text → Response
handle_get_log store id =
    if text_eq id [] then write_error 400 (text "missing id") else log_response (store.get_log id)
