-- ===== src/Tools.antt =====
-- internal/proxy/tools.go: the injected tools.
pub mod Replies
pub mod Handlers
pub mod Upload
pub mod Download
pub mod Dispatch
pub mod Definitions
