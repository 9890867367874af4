-- ===== src/App/Renewal.antt =====
-- internal/app/commands.go: the transport with the stored tokens as its provider.
pub mod Spent
use slack_mcp_extender.Base.{ℕ}
use slack_mcp_extender.Transfer.Web.{TokenProvider}
use slack_mcp_extender.Transport.Tokenfile.{Disk}
use slack_mcp_extender.Transport.Tokens.{StoredTokenConfig, Endpoint, Provider, token, invalidate}
use slack_mcp_extender.Transport.Session.{Server}

module _ {R : Type 0} (cfg : StoredTokenConfig) (disk : Disk) (endpoint : Endpoint) (now : ℕ) where
  -- The provider beside the rest of the world.
  unfoldable pub stored_provider : TokenProvider (Provider × R)
  unfolding token invalidate
  stored_provider = record {
    token = λ s. let (r, p) = token cfg disk endpoint now s.0 in (r, (p, s.1));
    invalidate = λ s. (invalidate s.0, s.1);
  }
