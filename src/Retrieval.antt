-- ===== src/Retrieval.antt =====
-- src/rag/retrieval, src/rag/vectordb, src/rag/lexical and src/rag/rerank: finding chunks.
pub mod Ranking
pub mod Store
pub mod Fusion
pub mod Hybrid
pub mod Lexical
pub mod Remote
