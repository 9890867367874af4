-- ===== src/Config.antt =====
-- internal/config/config.go: the configuration of a workspace.
pub mod Types
pub mod Validate
pub mod Load
pub mod Lookup
