-- ===== src/Config.antt =====
-- The configuration and the construction of the backends from it.
pub mod Settings
pub mod Backends
