-- ===== src/Transport.antt =====
-- internal/transport: the channel to the upstream server, and the tokens for it.
pub mod Forms
pub mod Credentials
pub mod Stream
pub mod Tokenfile
pub mod Tokens
pub mod Session
pub mod Channel
