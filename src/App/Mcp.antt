-- ===== src/App/Mcp.antt =====
-- internal/app/commands.go: what `mcp` puts together before the proxy runs.
pub mod Guarded
use slack_mcp_extender.Base.{ℕ, String, ◌<>◌, not, List, [], ◌∷◌, ◌==◌}
use slack_mcp_extender.Base.Int.{ℤ}
use slack_mcp_extender.Base.Result.{Result, err, ok, guard, ◌>>=◌, ◌>>◌}
use slack_mcp_extender.Filepath.{join}
use slack_mcp_extender.Config.Types.{OAuth, Config, System}
use slack_mcp_extender.Config.Validate.{resolve_client_secret}
use slack_mcp_extender.Config.Load.{load, server_owned_dirs}
use slack_mcp_extender.Transport.Credentials.{ClientAuth}
use slack_mcp_extender.Transport.Tokenfile.{StateDir, Disk}
use slack_mcp_extender.Transport.Tokens.{StoredTokenConfig, Provider, new_provider}
use slack_mcp_extender.Tools.Handlers.{InjectedTools}
use slack_mcp_extender.App.Commands.{Shell, parse_config_flag}

-- The proxy: the upstream with its tokens, the injected tools with the path of their log, and the
-- time limit.
pub record Built : Type 0 where
  pub endpoint : String
  pub token_config : StoredTokenConfig
  pub provider : Provider
  pub tools : InjectedTools
  pub audit_path : String
  pub timeout_ms : ℤ

module _ (sys : System) (disk : Disk) where
  abbrev pub token_config_of : OAuth → StoredTokenConfig
  token_config_of o = record {
    token_url = o.token_url;
    client = record {
      method = o.client_auth_method;
      client_id = o.client_id;
      client_secret = resolve_client_secret sys o;
    };
  }

  abbrev pub tools_of : Config → InjectedTools
  tools_of c = record {
    allow_hidden = c.allow_hidden;
    max_file_size = c.max_file_size;
    server_dirs = server_owned_dirs sys c;
  }

  abbrev pub built_of : Config → Provider → Built
  built_of c provider = record {
    endpoint = c.upstream_url;
    token_config = token_config_of c.oauth;
    provider = provider;
    tools = tools_of c;
    audit_path = join c.state_dir "audit.jsonl";
    timeout_ms = c.timeout_ms;
  }

  -- `NewSSEClientTransport` refuses an empty endpoint.
  unfoldable pub build_proxy : Config → StateDir → Result String Built
  unfolding new_provider server_owned_dirs resolve_client_secret
  build_proxy c dir = do
    provider ← new_provider disk dir
    guard (not (c.upstream_url == "")) "upstream transport: SSE endpoint URL is required"
    ok (built_of c provider)

  -- `mcp` up to the run of the proxy; `dirs` are the state directories.
  unfoldable pub start_mcp : Shell → (String → StateDir) → List String → Result String Built
  unfolding parse_config_flag load build_proxy
  start_mcp shell dirs args = do
    path ← parse_config_flag sys shell "mcp" args
    c ← load sys path
    build_proxy c (dirs c.state_dir)
