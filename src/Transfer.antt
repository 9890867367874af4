-- ===== src/Transfer.antt =====
-- internal/transfer: files to and from Slack, and the audit log.
pub mod Types
pub mod Http
pub mod Fetch
pub mod Io
pub mod Web
pub mod Client
pub mod Upload
pub mod Audit
pub mod Service
