-- ===== src/Api/Anomalies.antt =====
-- internal/api/anomalies.go: the two handlers over a domain.AnomalyStore.
use log_analytics_and_anomal.Prelude.{List, [], Text, text, text_eq, ℤ, pos, if◌then◌else◌}
use log_analytics_and_anomal.Domain.{Anomaly, AnomalyQuery}
use log_analytics_and_anomal.Runtime.{Runtime}
use log_analytics_and_anomal.Api.Params.{
  Checked, accepted, refused, ◌>>=◌, Query, get, parse_int_param, parse_time_param,
}
use log_analytics_and_anomal.Api.Response.{
  Response, write_json, write_error, anomalies_body, anomaly_body, Stored, found, not_found, failed,
}

-- The part of domain.AnomalyStore that the handlers call.
pub record AnomalyStore : Type 0 where
  pub search_anomalies : AnomalyQuery → Stored (List Anomaly × ℤ)
  pub get_anomaly : Text → Stored Anomaly

-- The parameters, in the order in which they are checked.
unfoldable pub anomaly_query : Runtime → Query → Checked AnomalyQuery
anomaly_query rt q = do
  page ← parse_int_param q (text "page") (pos 1) (pos 1) (pos 10000)
  size ← parse_int_param q (text "size") (pos 20) (pos 1) (pos 1000)
  from ← parse_time_param rt q (text "from")
  to ← parse_time_param rt q (text "to")
  accepted (record {
    rule_type = get q (text "type");
    service = get q (text "service");
    severity = get q (text "severity");
    from = from;
    to = to;
    page = page;
    size = size;
  })

abbrev anomalies_response : AnomalyQuery → Stored (List Anomaly × ℤ) → Response
anomalies_response q (found (anomalies, total)) =
    write_json 200
      (anomalies_body (record { items = anomalies; total = total; page = q.page; size = q.size }))
anomalies_response q not_found = write_error 500 (text "internal error")
anomalies_response q (failed e) = write_error 500 (text "internal error")

abbrev pub list_anomalies_with : AnomalyStore → Checked AnomalyQuery → Response
list_anomalies_with store (refused e) = write_error 400 e
list_anomalies_with store (accepted q) = anomalies_response q (store.search_anomalies q)

unfoldable pub handle_list_anomalies : Runtime → AnomalyStore → Query → Response
unfolding anomaly_query
handle_list_anomalies rt store q = list_anomalies_with store (anomaly_query rt q)

abbrev anomaly_response : Stored Anomaly → Response
anomaly_response (found anomaly) = write_json 200 (anomaly_body anomaly)
anomaly_response not_found = write_error 404 (text "anomaly not found")
anomaly_response (failed e) = write_error 500 (text "internal error")

unfoldable pub handle_get_anomaly : AnomalyStore → Text → Response
handle_get_anomaly store id =
    if text_eq id []
    then write_error 400 (text "missing id")
    else anomaly_response (store.get_anomaly id)
