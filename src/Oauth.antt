-- ===== src/Oauth.antt =====
-- internal/oauth: the login of one workspace.
pub mod Callback
pub mod Login
