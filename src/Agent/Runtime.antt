-- ===== src/Agent/Runtime.antt =====
-- src/rag/agent/runtime.py: the agent runtime.
pub mod State
pub mod Answering
pub mod Loop
pub mod Limits
pub mod Honest
pub mod Access
