-- ===== src/Elasticsearch/AnomalyIndexer.antt =====
-- AnomalyIndexer of internal/elasticsearch/anomaly_indexer.go: SearchAnomalies and GetAnomaly.
use log_analytics_and_anomal.Prelude.{ℕ, List, [], ◌∷◌, ◌++◌, Option, none, some, Text, text, ℤ}
use log_analytics_and_anomal.Domain.{Anomaly, AnomalyQuery}
use log_analytics_and_anomal.Api.Response.{Stored, found, not_found, failed}
use log_analytics_and_anomal.Elasticsearch.Request.{
  SearchRequest, SearchAnswer, Hit, Client, term_if, range_if, clamp_size, offset_of, total_of,
}

unfoldable anomaly_request : AnomalyQuery → SearchRequest
anomaly_request q = record {
  index = text "anomalies";
  filters =
      term_if (text "rule_id") q.rule_type
      ++ (term_if (text "service") q.service
          ++ (term_if (text "severity") q.severity ++ range_if (text "detected_at") q.from q.to));
  from = offset_of q.page q.size;
  size = clamp_size q.size;
}

abbrev with_id : Option Text → Anomaly → Anomaly
with_id none anomaly = anomaly
with_id (some id) anomaly = record anomaly { id = id }

unfoldable anomaly_entries : (List ℕ → Option Anomaly) → List Hit → Option (List Anomaly)
anomaly_entries unmarshal [] = some []
anomaly_entries unmarshal (h ∷ hits) =
    let rest = anomaly_entries unmarshal hits in
    elim (unmarshal h.body) [
      | none ↦ none
      | some anomaly ↦ elim rest [
        | none ↦ none
        | some anomalies ↦ some (with_id h.doc_id anomaly ∷ anomalies)
      ]
    ]

abbrev anomalies_found : ℤ → Option (List Anomaly) → Stored (List Anomaly × ℤ)
anomalies_found total none = failed (text "unmarshal anomaly")
anomalies_found total (some anomalies) = found (anomalies, total)

abbrev anomalies_answer :
    (List ℕ → Option Anomaly) → Option SearchAnswer → Stored (List Anomaly × ℤ)
anomalies_answer unmarshal none = failed (text "es search anomalies")
anomalies_answer unmarshal (some a) =
    anomalies_found (total_of a.total) (anomaly_entries unmarshal a.hits)

unfoldable pub search_anomalies :
    Client → (List ℕ → Option Anomaly) → AnomalyQuery → Stored (List Anomaly × ℤ)
unfolding anomaly_request anomaly_entries
search_anomalies client unmarshal q = anomalies_answer unmarshal (client.search (anomaly_request q))

abbrev anomaly_found : Option Text → Option Anomaly → Stored Anomaly
anomaly_found id none = failed (text "unmarshal anomaly")
anomaly_found id (some anomaly) = found (with_id id anomaly)

abbrev anomaly_answer : (List ℕ → Option Anomaly) → Option (Option Hit) → Stored Anomaly
anomaly_answer unmarshal none = failed (text "es get anomaly")
anomaly_answer unmarshal (some none) = not_found
anomaly_answer unmarshal (some (some h)) = anomaly_found h.doc_id (unmarshal h.body)

-- The Get API; the inner option is `Found`. The answer always has an _id.
unfoldable pub get_anomaly : Client → (List ℕ → Option Anomaly) → Text → Stored Anomaly
get_anomaly client unmarshal id = anomaly_answer unmarshal (client.get_doc (text "anomalies") id)
