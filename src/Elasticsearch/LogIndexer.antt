-- ===== src/Elasticsearch/LogIndexer.antt =====
-- LogIndexer of internal/elasticsearch/log_indexer.go: SearchLogs, GetLog and IndexLog.
use log_analytics_and_anomal.Prelude.{ℕ, List, [], ◌∷◌, ◌++◌, Option, none, some, Text, text, ℤ}
use log_analytics_and_anomal.Domain.{LogEntry, LogQuery}
use log_analytics_and_anomal.Api.Response.{Stored, found, not_found, failed}
use log_analytics_and_anomal.Elasticsearch.Request.{
  SearchRequest, SearchAnswer, Hit, Client, term_if, range_if, clamp_size, offset_of, total_of,
}

unfoldable pub log_request : LogQuery → SearchRequest
log_request q = record {
  index = text "logs-*";
  filters =
      term_if (text "service") q.service
      ++ (term_if (text "level") q.level ++ range_if (text "@timestamp") q.from q.to);
  from = offset_of q.page q.size;
  size = clamp_size q.size;
}

abbrev with_id : Option Text → LogEntry → LogEntry
with_id none entry = entry
with_id (some id) entry = record entry { id = id }

-- The loop over the hits; json.Unmarshal is a parameter, and the first that fails ends it.
unfoldable log_entries : (List ℕ → Option LogEntry) → List Hit → Option (List LogEntry)
log_entries unmarshal [] = some []
log_entries unmarshal (h ∷ hits) =
    let rest = log_entries unmarshal hits in
    elim (unmarshal h.body) [
      | none ↦ none
      | some entry ↦ elim rest [
        | none ↦ none
        | some entries ↦ some (with_id h.doc_id entry ∷ entries)
      ]
    ]

abbrev logs_found : ℤ → Option (List LogEntry) → Stored (List LogEntry × ℤ)
logs_found total none = failed (text "unmarshal log entry")
logs_found total (some entries) = found (entries, total)

abbrev logs_answer : (List ℕ → Option LogEntry) → Option SearchAnswer → Stored (List LogEntry × ℤ)
logs_answer unmarshal none = failed (text "es search logs")
logs_answer unmarshal (some a) = logs_found (total_of a.total) (log_entries unmarshal a.hits)

unfoldable pub search_logs :
    Client → (List ℕ → Option LogEntry) → LogQuery → Stored (List LogEntry × ℤ)
unfolding log_request log_entries
search_logs client unmarshal q = logs_answer unmarshal (client.search (log_request q))

abbrev log_found : Option Text → Option LogEntry → Stored LogEntry
log_found id none = failed (text "unmarshal log entry")
log_found id (some entry) = found (with_id id entry)

abbrev first_log : (List ℕ → Option LogEntry) → List Hit → Stored LogEntry
first_log unmarshal [] = not_found
first_log unmarshal (h ∷ hits) = log_found h.doc_id (unmarshal h.body)

abbrev log_answer : (List ℕ → Option LogEntry) → Option SearchAnswer → Stored LogEntry
log_answer unmarshal none = failed (text "es get log")
log_answer unmarshal (some a) = first_log unmarshal a.hits

-- An IDs query, since logs-* is a pattern.
unfoldable pub get_log : Client → (List ℕ → Option LogEntry) → Text → Stored LogEntry
get_log client unmarshal id = log_answer unmarshal (client.search_ids (text "logs-*") id)
