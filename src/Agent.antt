-- ===== src/Agent.antt =====
-- src/rag/agent: the bounded plan, act and critique loop.
pub mod Budget
pub mod Evidence
pub mod Tools
pub mod Critic
pub mod Runtime
