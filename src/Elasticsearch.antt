-- ===== src/Elasticsearch.antt =====
-- internal/elasticsearch: the queries that the two stores send, and what they make of the answers.
-- The client, the bulk indexer and encoding/json are parameters.
pub mod Request
pub mod LogIndexer
pub mod AnomalyIndexer
pub mod Documents
pub mod Lookups
pub mod Paging
