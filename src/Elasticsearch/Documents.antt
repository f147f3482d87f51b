-- ===== src/Elasticsearch/Documents.antt =====
-- IndexLog of log_indexer.go and IndexAnomaly of anomaly_indexer.go: the item that each hands to the
-- bulk indexer. Its failure callback only logs and counts. json.Marshal and the hexadecimal SHA-256
-- are parameters, and so is the printing of a day.
pub mod Ids
use log_analytics_and_anomal.Prelude.{
  ℕ, zero, suc, ◌+◌, ◌/◌, ◌%◌, Bool, true, false, ◌==◌, List, [], ◌∷◌, ◌++◌, Option, none, some,
  Text, text, ℤ, pos, negsuc,
}
use log_analytics_and_anomal.Domain.{Time, LogEntry, Anomaly, RawMessage}

pub record Encoding : Type 0 where
  -- json.Marshal; none is an error
  pub marshal_log : LogEntry → Option Text
  pub marshal_anomaly : Anomaly → Option Text
  -- hex.EncodeToString(sha256.Sum256(…)) of a text
  pub sha256_hex : Text → Text
  -- t.UTC().Format("2006.01.02")
  pub format_day : Time → Text

-- An esutil.BulkIndexerItem; an empty index stands for the indexer's own.
pub record BulkItem : Type 0 where
  pub action : Text
  pub index : Text
  pub document_id : Text
  pub body : Text

-- The digits of a number before what follows, with as many rounds as there can be digits.
unfoldable pub decimal_loop : ℕ → ℕ → Text → Text
decimal_loop zero n rest = rest
decimal_loop (suc rounds) n rest =
    let digit = (b'0' + n % 10) ∷ rest in
    elim (n / 10 == 0) [ true ↦ digit | false ↦ decimal_loop rounds (n / 10) digit ]

-- The verb %d of fmt.Sprintf
unfoldable pub decimal : ℤ → Text
unfolding decimal_loop
decimal (pos n) = decimal_loop (suc n) n []
decimal (negsuc n) = b'-' ∷ decimal_loop (suc (suc n)) (suc n) []

-- fmt.Sprintf("%d:%d", entry.Source.Partition, entry.Source.Offset)
unfoldable pub document_key : RawMessage → Text
unfolding decimal
document_key source = decimal source.partition ++ b':' ∷ decimal source.offset

abbrev log_item : Encoding → LogEntry → Option Text → Option BulkItem
log_item enc entry none = none
log_item enc entry (some body) = some (record {
  action = text "index";
  index = text "logs-" ++ enc.format_day entry.timestamp;
  document_id = enc.sha256_hex (document_key entry.source);
  body = body;
})

-- The item that is added; none is the error of Marshal, before anything is added.
unfoldable pub index_log : Encoding → LogEntry → Option BulkItem
unfolding document_key
index_log enc entry = log_item enc entry (enc.marshal_log entry)

abbrev anomaly_item : Anomaly → Option Text → Option BulkItem
anomaly_item anomaly none = none
anomaly_item anomaly (some body) =
    some (record { action = text "index"; index = []; document_id = anomaly.id; body = body })

unfoldable pub index_anomaly : Encoding → Anomaly → Option BulkItem
index_anomaly enc anomaly = anomaly_item anomaly (enc.marshal_anomaly anomaly)
