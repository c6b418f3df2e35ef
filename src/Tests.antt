-- ===== src/Tests.antt =====
-- The theorems at concrete inputs, and the sample data they use.
pub mod Samples
mod AgentTests
mod ToolTests
mod EvidenceTests
pub mod RetrievalTests
mod ServiceTests
pub mod PipelineTests
mod ApiTests
mod ChunkingTests
mod IndexTests
mod LexicalTests
mod RemoteTests
mod ConfigTests
mod ServingTests
