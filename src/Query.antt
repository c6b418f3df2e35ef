-- ===== src/Query.antt =====
-- src/rag/query: routing and rewriting of questions.
pub mod Route
pub mod Rewrite
