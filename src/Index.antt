-- ===== src/Index.antt =====
-- Building the index: parsing of documents, the offline pipeline, and the versions of the index.
pub mod Registry
pub mod Parsing
pub mod Ingestion
pub mod Offline
