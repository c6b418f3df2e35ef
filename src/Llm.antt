-- ===== src/Llm.antt =====
-- src/rag/llm: calling language models.
pub mod Resilient
