-- ===== src/Agent/Tools.antt =====
-- src/rag/agent/tools: argument validation, the result cache and the registry.
pub mod Arguments
pub mod ResultCache
pub mod Registry
pub mod Retrieval
