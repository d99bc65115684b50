-- ===== src/Ingest.antt =====
-- internal/ingest: what is done to the records of a source before they are written to a shard.
pub mod Privacy
pub mod Values
