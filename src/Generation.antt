-- ===== src/Generation.antt =====
-- src/rag/generation: citations, refusal and grounded answers.
pub mod Citations
pub mod Grounding
pub mod Grounded
