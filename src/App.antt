-- ===== src/App.antt =====
-- internal/app and main.go: the commands, and how they put the parts together.
pub mod Uploads
pub mod Init
pub mod Commands
pub mod Mcp
pub mod Renewal
