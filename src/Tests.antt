-- ===== src/Tests.antt =====
-- Runs of the model, and the theorems at concrete inputs.
mod World
mod Containment
mod Tools
mod Jsonrpc
mod Proxy
mod Settings
mod Streams
mod Tokens
mod Client
mod Sessions
mod Logins
mod Inits
mod Commands
mod Channels
