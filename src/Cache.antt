-- ===== src/Cache.antt =====
-- src/rag/cache: the answer cache, its keys and the semantic cache.
pub mod Protocol
pub mod Keys
pub mod Memory
pub mod Semantic
