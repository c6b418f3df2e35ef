-- ===== src/Chunking.antt =====
-- src/rag/chunking: cutting documents into chunks.
pub mod Fixed
pub mod Recursive
pub mod Markdown
pub mod Semantic
pub mod Registry
