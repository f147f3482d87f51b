-- ===== src/Server/Work.antt =====
-- What a pipeline worker does to the messages that it takes, and when the server has an engine.
use log_analytics_and_anomal.Prelude.{
  ℕ, suc, ◌+◌, ◌≡◌, refl, sym, ◌∙◌, ◌||◌, List, [], ◌∷◌, ◌++◌, Option, none, some, Text, text,
  text_eq, ℤ, arith, append_assoc, append-nil,
}
use log_analytics_and_anomal.Domain.{Time, LogEntry}
use log_analytics_and_anomal.Runtime.{Runtime}
use log_analytics_and_anomal.Detection.Config.{DetectionConfig}
use log_analytics_and_anomal.Detection.Recording.{is_some}
use log_analytics_and_anomal.Detection.OffHours.{new_off_hours_access_rule}
use log_analytics_and_anomal.Detection.Engine.Trace.{Call, evaluates, run}
use log_analytics_and_anomal.Pipeline.{Structured, parse, process_message}
use log_analytics_and_anomal.Elasticsearch.Documents.{Encoding, BulkItem, index_log}
use log_analytics_and_anomal.Server.{Worker, Arrival, build_engine, work, work_all, taken_item}

-- The server gets an engine exactly if the off-hours zone is empty, "UTC" or one that
-- time.LoadLocation knows.
build_engine_exact :
    (rt : Runtime) (cfg : DetectionConfig) (now : Time)
    → let zone = cfg.rules.off_hours.timezone in
      is_some (build_engine rt cfg now)
      ≡ (text_eq zone [] || text_eq zone (text "UTC") || is_some (rt.load_location zone))
unfolding build_engine new_off_hours_access_rule
build_engine_exact rt cfg now = ground arith

module _ (rt : Runtime) (enc : Encoding) (unmarshal : List ℕ → Option Structured) where
  -- The entry that is made of a message.
  abbrev entry_of : Arrival → LogEntry
  entry_of a = (parse rt unmarshal a.msg a.input).0

  abbrev undecodable : List Arrival → ℕ
  undecodable [] = 0
  undecodable (a ∷ rest) = elim (unmarshal a.msg.payload) [
    | none ↦ suc (undecodable rest)
    | some s ↦ undecodable rest
  ]

  abbrev pub labels : List Arrival → List (Text × ℤ)
  labels [] = []
  labels (a ∷ rest) = (a.msg.topic, a.msg.partition) ∷ labels rest

  abbrev pub items_of : List Arrival → List BulkItem
  items_of [] = []
  items_of (a ∷ rest) = taken_item a.takes (index_log enc (entry_of a)) ++ items_of rest

  abbrev pub calls : List Arrival → List Call
  calls [] = []
  calls (a ∷ rest) = evaluates (entry_of a) a.now a.at ∷ calls rest

  errors_step :
      (a : Arrival) (n : ℕ) (rest : List Arrival)
      → (process_message rt unmarshal a.msg a.input n).1 + undecodable rest
        ≡ n + undecodable (a ∷ rest)
  unfolding process_message parse
  errors_step a n rest = ground arith

  -- Over any sequence of messages, a worker counts each of them as consumed and exactly the
  -- undecodable ones as parse errors, indexes what is made of each where the document can be encoded
  -- and the indexer takes it, and evaluates each in order, whatever became of its indexing.
  pub work_all_exact :
      (w : Worker) (arrivals : List Arrival)
      → let w' = work_all rt enc unmarshal w arrivals in
        (w'.parse_errors ≡ w.parse_errors + undecodable arrivals)
        × (w'.consumed ≡ w.consumed ++ labels arrivals)
        × (w'.indexed ≡ w.indexed ++ items_of arrivals)
        × (w'.engine ≡ run rt w.engine (calls arrivals))
  unfolding work_all work process_message
  work_all_exact w [] = (omega arith, sym (append-nil w.consumed), sym (append-nil w.indexed), refl)
  work_all_exact w (a ∷ rest) =
      let ih = work_all_exact (work rt enc unmarshal w a) rest in
      let item = taken_item a.takes (index_log enc (entry_of a)) in
      (
        ih.0 ∙ errors_step a w.parse_errors rest,
        ih.1 ∙ append_assoc w.consumed ((a.msg.topic, a.msg.partition) ∷ []) (labels rest),
        ih.2 ∙ append_assoc w.indexed item (items_of rest),
        ih.3,
      )
