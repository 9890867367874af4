-- ===== src/Proxy.antt =====
-- internal/proxy/proxy.go: the pipe between the agent and the upstream server.
pub mod Pipe
pub mod Routing
pub mod Steps
pub mod Writes
pub mod Linked
pub mod Answered
pub mod Returns
pub mod Forwarded
pub mod Injected
