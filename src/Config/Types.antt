-- ===== src/Config/Types.antt =====
-- A configuration, and what `Load` and `Validate` use of the system and of other packages.
use slack_mcp_extender.Base.{ℕ, String, Bool, Option, List}
use slack_mcp_extender.Base.Int.{ℤ}
use slack_mcp_extender.Base.Result.{Result}

pub record OAuth : Type 0 where
  pub authorize_url : String
  pub token_url : String
  pub client_id : String
  pub client_secret : String
  pub client_secret_env : String
  pub scopes : List String
  pub callback_port : ℤ
  pub callback_scheme : String
  pub client_auth_method : String

-- `upstream_url` is `Upstream.URL`.
pub record Config : Type 0 where
  pub upstream_url : String
  pub oauth : OAuth
  pub allowed_roots : List String
  pub allow_hidden : Bool
  pub max_file_size : ℤ
  pub state_dir : String
  pub timeout_ms : ℤ
  pub path : String

pub record Url : Type 0 where
  pub scheme : String
  pub host : String

-- `net/url`'s `Parse`, `fmt`'s `%q`, `filepath.Abs`, `os.UserHomeDir`, the permission bits that
-- `os.Stat` and the text that `os.Open` give, and the strict decoder: a configuration and whether more
-- follows it.
pub record System : Type 0 where
  pub parse_url : String → Option Url
  pub quote : String → String
  pub octal : ℕ → String
  pub abs : String → Result String String
  pub home : Result String String
  pub permissions : String → Result String ℕ
  pub open_file : String → Result String String
  pub decode : String → Result String (Config × Bool)
  pub getenv : String → String
  pub windows : Bool
