-- ===== src/Pipelines.antt =====
-- src/rag/pipelines: how the parts are put together.
pub mod Online
pub mod Serving
