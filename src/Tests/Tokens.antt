-- ===== src/Tests/Tokens.antt =====
-- A refresh whose answer has no refresh token.
use slack_mcp_extender.Base.{String, ◌≡◌, refl, none, [], ◌∷◌}
use slack_mcp_extender.Base.Int.{pos}
use slack_mcp_extender.Base.Result.{ok, err}
use slack_mcp_extender.Transport.Credentials.{
  ClientAuth, TokenRequest, apply_client_auth, refresh_request,
}
use slack_mcp_extender.Transport.Credentials.Placed.{Places, apply_client_auth-Places}
use slack_mcp_extender.Transport.Tokenfile.{StoredTokens, Disk}
use slack_mcp_extender.Transport.Tokens.{StoredTokenConfig, Endpoint, Provider, token, invalidate}
use slack_mcp_extender.Transport.Tokens.Kept.{Ends, token-Ends}

abbrev pub stored : StoredTokens
stored = record {
  access_token = "old";
  refresh_token = "again";
  token_type = "user";
  expires_at = pos 1000;
}

abbrev renewed_tokens : StoredTokens
renewed_tokens = record stored { access_token = "new"; expires_at = pos 560 }

abbrev pub endpoint : Endpoint
endpoint = record {
  new_request = λ url. none;
  exchange = λ request. ok (record { status = 200; body = record { bytes = []; broken = none } });
  decode = λ bytes. ok (record {
    envelope_ok = none;
    error = "";
    access_token = "new";
    refresh_token = "";
    token_type = "user";
    expires_in = pos 60;
  });
  decimal = λ n. "";
  text_of_bytes = λ bytes. "";
}

abbrev pub client_auth : ClientAuth
client_auth = record { method = ""; client_id = "id"; client_secret = "secret" }

abbrev pub cfg : StoredTokenConfig
cfg = record { token_url = "https://slack.com/token"; client = client_auth }

-- A disk on which only one set of tokens can be written.
abbrev encoded : String → String
encoded access_token = access_token

abbrev pub disk : Disk
disk = record {
  encode = λ tokens. err "disk full";
  decode = λ text. err "not JSON";
  missing = "no such file or directory";
  read_error = none;
  mkdir_error = none;
  write_error = none;
  rename_error = none;
}

abbrev pub provider : Provider
provider = record { tokens = stored; dir = record { stored = none; temporary = none }; warned = [] }

renews : token cfg disk endpoint 500 (invalidate provider) ≡ (
  ok "new",
  record provider {
    tokens = renewed_tokens;
    warned = "slack-mcp-extender: warning: failed to save refreshed tokens: disk full" ∷ [];
  },
)
unfolding token invalidate
renews = refl

secret_in_form :
    (refresh_request "u" client_auth "again").form
    ≡ ("client_secret", "secret")
      ∷ ("client_id", "id")
      ∷ ("grant_type", "refresh_token")
      ∷ ("refresh_token", "again")
      ∷ []
unfolding refresh_request
secret_in_form = refl

token-Ends_example : Ends cfg disk endpoint 980 provider (token cfg disk endpoint 980 provider)
token-Ends_example = token-Ends cfg disk endpoint 980 provider

abbrev request : TokenRequest
request = record { url = "u"; basic = none; form = ("code", "c") ∷ [] }

apply_client_auth-Places_example :
    Places client_auth request (apply_client_auth client_auth request)
apply_client_auth-Places_example = apply_client_auth-Places client_auth request
