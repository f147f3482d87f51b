-- ===== src/Elasticsearch/Lookups.antt =====
-- The lookup handlers over the Elasticsearch stores: when they answer 404, and when 500.
use log_analytics_and_anomal.Prelude.{
  ℕ, ◌≡◌, false, List, [], ◌∷◌, Option, none, some, Text, text, text_eq, arith,
}
use log_analytics_and_anomal.Domain.{LogEntry, Anomaly}
use log_analytics_and_anomal.Api.Logs.{LogStore, handle_get_log}
use log_analytics_and_anomal.Api.Anomalies.{AnomalyStore, handle_get_anomaly}
use log_analytics_and_anomal.Elasticsearch.Request.{Client, SearchAnswer, Hit}
use log_analytics_and_anomal.Elasticsearch.LogIndexer.{search_logs, get_log}
use log_analytics_and_anomal.Elasticsearch.AnomalyIndexer.{search_anomalies, get_anomaly}

-- The stores that the server hands to the handlers.
abbrev pub log_store : Client → (List ℕ → Option LogEntry) → LogStore
log_store client unmarshal = record {
  search_logs = search_logs client unmarshal;
  get_log = get_log client unmarshal;
}

abbrev pub anomaly_store : Client → (List ℕ → Option Anomaly) → AnomalyStore
anomaly_store client unmarshal = record {
  search_anomalies = search_anomalies client unmarshal;
  get_anomaly = get_anomaly client unmarshal;
}

-- The status for a document that the client was asked for: none for an error, some none for a
-- document that is not there.
abbrev pub lookup_status {ℓ} : {A : Type ℓ} → (List ℕ → Option A) → Option (Option Hit) → ℕ
lookup_status unmarshal none = 500
lookup_status unmarshal (some none) = 404
lookup_status unmarshal (some (some h)) = elim (unmarshal h.body) [ none ↦ 500 | some a ↦ 200 ]

-- The first hit of a search.
abbrev first_hit : List Hit → Option Hit
first_hit [] = none
first_hit (h ∷ hits) = some h

abbrev pub searched : Option SearchAnswer → Option (Option Hit)
searched none = none
searched (some a) = some (first_hit a.hits)

-- For an ID that is not empty, both lookup handlers over the Elasticsearch stores answer 404 exactly
-- when the client finds no document, 500 when it fails or the document does not decode, and 200
-- otherwise; for logs the document is the first hit of an IDs search over logs-*.
pub lookups_status :
    (client : Client) (log_of : List ℕ → Option LogEntry) (anomaly_of : List ℕ → Option Anomaly)
    (id : Text)
    → text_eq id [] ≡ false
    → ((handle_get_log (log_store client log_of) id).status
        ≡ lookup_status log_of (searched (client.search_ids (text "logs-*") id)))
      × ((handle_get_anomaly (anomaly_store client anomaly_of) id).status
          ≡ lookup_status anomaly_of (client.get_doc (text "anomalies") id))
unfolding handle_get_log handle_get_anomaly get_log get_anomaly
lookups_status client log_of anomaly_of id h = ground arith
