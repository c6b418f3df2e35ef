-- ===== src/Security.antt =====
-- src/rag/security: access control and authentication.
pub mod Acl
pub mod Reach
pub mod Auth
