-- ===== src/Schemas.antt =====
-- The contracts of src/rag/schemas: the values that the components exchange.
pub mod Principal
pub mod Answer
pub mod Chunk
pub mod Agent
pub mod Chat
