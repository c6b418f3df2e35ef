-- ===== src/Api.antt =====
-- src/rag/api: the query endpoint.
pub mod Query
