-- ===== src/Tests/Services.antt =====
-- The handlers, the requests for Elasticsearch, the parser, the consumer and the dispatcher.
use log_analytics_and_anomal.Prelude.{
  ℕ, suc, ◌≡◌, ◌≤◌, ◌<◌, ◌*◌, refl, ◌⊎◌, Bool, true, List, [], ◌∷◌, Option, none, some, text_key,
  text, text_eq, pos, ◌==◌,
}
use log_analytics_and_anomal.Assoc.{lookup}
use log_analytics_and_anomal.Domain.{LogQuery, Anomaly, silence}
use log_analytics_and_anomal.Runtime.{atoi}
use log_analytics_and_anomal.Api.Params.{Query, parse_int_param, parse_time_param}
use log_analytics_and_anomal.Api.Response.{not_found, failed}
use log_analytics_and_anomal.Api.Logs.{LogStore, handle_list_logs, handle_get_log, log_query}
use log_analytics_and_anomal.Api.Anomalies.{AnomalyStore, handle_list_anomalies, handle_get_anomaly}
use log_analytics_and_anomal.Api.Pages.{list_handlers_bad_request}
use log_analytics_and_anomal.Elasticsearch.LogIndexer.{log_request}
use log_analytics_and_anomal.Elasticsearch.Paging.{log_request_paging}
use log_analytics_and_anomal.Elasticsearch.Request.{Client}
use log_analytics_and_anomal.Elasticsearch.Lookups.{log_store, anomaly_store, lookups_status}
use log_analytics_and_anomal.Pipeline.{Structured, Input, one_of, process_message, normalise_level}
use log_analytics_and_anomal.Pipeline.Levels.{levels, process_message_total}
use log_analytics_and_anomal.Kafka.{Record, message_of, each_record}
use log_analytics_and_anomal.Kafka.Delivery.{each_record_exact}
use log_analytics_and_anomal.Alert.{Event, received, cancelled, run}
use log_analytics_and_anomal.Alert.Fanout.{state_of, run_fans_out}
use log_analytics_and_anomal.Tests.Samples.{sample_runtime, raw}

abbrev no_logs : LogStore
no_logs = record { search_logs = λ q. failed (text "down"); get_log = λ id. not_found }

abbrev no_anomalies : AnomalyStore
no_anomalies = record {
  search_anomalies = λ q. failed (text "down");
  get_anomaly = λ id. not_found;
}

list_handlers_bad_request_example :
    (((handle_list_logs sample_runtime no_logs ((text "size", text "many") ∷ [])).status == 400)
      ≡ true)
    × (((handle_list_anomalies sample_runtime no_anomalies ((text "size", text "many") ∷ [])).status
          == 400)
        ≡ true)
unfolding text_eq lookup atoi
list_handlers_bad_request_example =
    list_handlers_bad_request sample_runtime no_logs no_anomalies ((text "size", text "many") ∷ [])

-- The fourth page of 50.
abbrev fourth_page : Query
fourth_page = (text "page", text "4") ∷ (text "size", text "50") ∷ []

abbrev fourth_query : LogQuery
fourth_query = record {
  service = [];
  level = [];
  from = pos 0;
  to = pos 0;
  page = pos 4;
  size = pos 50;
}

log_request_paging_example :
    (p : ℕ) × (s : ℕ) × ((pos 4 ≡ pos (suc p)) × (p < 10000))
    × ((pos 50 ≡ pos s) × (1 ≤ s) × (s ≤ 1000))
    × ((log_request fourth_query).from ≡ pos (p * s))
    × ((log_request fourth_query).size ≡ pos s)
unfolding log_query text_eq lookup atoi parse_int_param parse_time_param
log_request_paging_example = log_request_paging sample_runtime fourth_page refl

abbrev no_json : List ℕ → Option Structured
no_json payload = none

abbrev sample_input : Input
sample_input = record { uuid = text "u"; now = pos 5 }

process_message_total_example :
    let r = process_message sample_runtime no_json raw sample_input 3 in
    (one_of r.0.level levels ≡ true)
    × (r.0.source ≡ raw)
    × (r.0.raw_source ≡ text "boom")
    × (((no_json raw.payload ≡ none)
          × (r.1 ≡ 4)
          × (r.0.level ≡ text "unknown")
          × (r.0.message ≡ text "boom"))
        ⊎ ((s : Structured) × (no_json raw.payload ≡ some s)
            × (r.1 ≡ 3)
            × (r.0.level ≡ normalise_level sample_runtime s.level)
            × (r.0.message ≡ s.message)))
process_message_total_example = process_message_total sample_runtime no_json raw sample_input 3

abbrev record_at : ℕ → Record
record_at n = record {
  value = [];
  topic = text "logs";
  partition = pos 0;
  offset = pos n;
  timestamp = pos 0;
}

-- The context ends while record 6 waits, and record 7 still goes through.
abbrev cut_fetch : List (Record × Bool)
cut_fetch = (record_at 5, Bool.true) ∷ (record_at 6, Bool.false) ∷ (record_at 7, Bool.true) ∷ []

each_record_exact_example :
    let c = each_record (record { sent = []; marked = [] }) cut_fetch in
    (c.sent ≡ message_of (record_at 5) ∷ message_of (record_at 7) ∷ [])
    × (c.marked ≡ record_at 5 ∷ record_at 7 ∷ [])
each_record_exact_example = each_record_exact (record { sent = []; marked = [] }) cut_fetch

abbrev sample_anomaly : Anomaly
sample_anomaly = record {
  id = text "a";
  rule_id = text "service_silence";
  severity = text "critical";
  service = text "pay";
  description = silence (text "pay") (pos 59) (pos 50);
  evidence = [];
  detected_at = pos 80;
}

abbrev two_events : List Event
two_events = received (some sample_anomaly) ∷ cancelled (text "context canceled") ∷ []

run_fans_out_example :
    let d = state_of (
      run
        (λ a. some (text "store down"))
        (some (λ a. none))
        (record { indexed = []; alerted = []; errors = [] })
        two_events) in
    (d.indexed ≡ sample_anomaly ∷ []) × (d.alerted ≡ sample_anomaly ∷ [])
run_fans_out_example =
    run_fans_out (λ a. some (text "store down")) (some (λ a. none))
      (record { indexed = []; alerted = []; errors = [] }) two_events

-- A client that finds nothing.
abbrev empty_client : Client
empty_client = record {
  search = λ q. none;
  search_ids = λ index id. some (record { total = none; hits = [] });
  get_doc = λ index id. none;
}

lookups_status_example :
    ((handle_get_log (log_store empty_client (λ s. none)) (text "7")).status ≡ 404)
    × ((handle_get_anomaly (anomaly_store empty_client (λ s. none)) (text "7")).status ≡ 500)
unfolding text_eq
lookups_status_example = lookups_status empty_client (λ s. none) (λ s. none) (text "7") refl
