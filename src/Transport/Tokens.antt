-- ===== src/Transport/Tokens.antt =====
-- internal/transport/tokens.go: the tokens of the provider, with the answer of the token endpoint.
pub mod Kept
use slack_mcp_extender.Base.{
  ℕ, ◌+◌, ◌*◌, String, ◌<>◌, Bool, true, false, ◌&&◌, not, Option, none, some, List, [], ◌∷◌, ◌++◌,
  if◌then◌else◌, ◌==◌, eqb, ltb,
}
use slack_mcp_extender.Base.Int.{ℤ, pos, pos_part, ltb_ℤ}
use slack_mcp_extender.Base.Result.{Result, err, ok, guard, wrapped, ◌>>◌, ◌>>=◌}
use slack_mcp_extender.Transfer.Http.{Response, limit_reader, truncate}
use slack_mcp_extender.Transfer.Web.{read_all}
use slack_mcp_extender.Transport.Credentials.{ClientAuth, TokenRequest, refresh_request}
use slack_mcp_extender.Transport.Tokenfile.{StoredTokens, StateDir, Disk, save_tokens, load_tokens}

-- The members of a token endpoint's response.
pub record TokenResponse : Type 0 where
  pub envelope_ok : Option Bool
  pub error : String
  pub access_token : String
  pub refresh_token : String
  pub token_type : String
  pub expires_in : ℤ

abbrev pub is_refused : Option Bool → Bool
is_refused none = false
is_refused (some envelope_ok) = not envelope_ok

-- That the sum leaves the range of `time.Duration` is not modelled.
abbrev pub expiry : ℕ → TokenResponse → ℤ
expiry now r =
    if ltb_ℤ (pos 0) r.expires_in
    then pos (now + pos_part r.expires_in)
    else (if not (r.refresh_token == "") then pos (now + 3600) else pos 0)

-- `now` is the time in whole seconds.
unfoldable pub parse_token_response : ℕ → Result String TokenResponse → Result String StoredTokens
parse_token_response now decoded = do
  r ← decoded
  guard (not (is_refused r.envelope_ok)) ("token endpoint error: " <> r.error)
  guard (not (r.access_token == "")) "empty access_token in token response"
  ok (record {
    access_token = r.access_token;
    refresh_token = r.refresh_token;
    token_type = r.token_type;
    expires_at = expiry now r;
  })

-- What the endpoint answers to a request, how its body is decoded, and texts of numbers and bytes.
pub record Endpoint : Type 0 where
  pub new_request : String → Option String
  pub exchange : TokenRequest → Result String Response
  pub decode : List ℕ → Result String TokenResponse
  pub decimal : ℕ → String
  pub text_of_bytes : List ℕ → String

abbrev pub unless_error : String → Option String → Result String (Unit {0})
unless_error what none = ok tt
unless_error what (some e) = err (what <> e)

pub record StoredTokenConfig : Type 0 where
  pub token_url : String
  pub client : ClientAuth

-- `storedTokenProvider`, with its directory and the warnings on the standard error.
pub record Provider : Type 0 where
  pub tokens : StoredTokens
  pub dir : StateDir
  pub warned : List String

module _ (cfg : StoredTokenConfig) (disk : Disk) (endpoint : Endpoint) (now : ℕ) where
  unfoldable pub refresh_tokens : String → Result String StoredTokens
  unfolding parse_token_response limit_reader truncate refresh_request
  refresh_tokens refresh_token = do
    unless_error "build refresh request: " (endpoint.new_request cfg.token_url)
    response ←
        wrapped "refresh request: "
          (endpoint.exchange (refresh_request cfg.token_url cfg.client refresh_token))
    bytes ← wrapped "read refresh response: " (read_all (limit_reader response.body (pos 1048576)))
    guard (eqb response.status 200) (
        "refresh failed (HTTP "
        <> (endpoint.decimal response.status
            <> ("): " <> truncate endpoint.text_of_bytes bytes 200)))
    parse_token_response now (endpoint.decode bytes)

  abbrev pub keep_refresh_token : StoredTokens → StoredTokens → StoredTokens
  keep_refresh_token old new = record new {
    refresh_token = if new.refresh_token == "" then old.refresh_token else new.refresh_token;
  }

  -- That saving fails is only reported.
  abbrev pub renew : List String → StoredTokens → Option String × StateDir → Provider
  renew warned new (none, dir) = record { tokens = new; dir = dir; warned = warned }
  renew warned new (some e, dir) = record {
    tokens = new;
    dir = dir;
    warned =
        warned ++ (("slack-mcp-extender: warning: failed to save refreshed tokens: " <> e) ∷ []);
  }

  abbrev pub renewed : StoredTokens → Provider → Provider
  renewed new p = renew p.warned new (save_tokens disk new p.dir)

  abbrev pub refreshed : Provider → Result String StoredTokens → Result String String × Provider
  refreshed p (err e) = (err ("token refresh failed: " <> e), p)
  refreshed p (ok new) = (ok new.access_token, renewed (keep_refresh_token p.tokens new) p)

  abbrev pub without_refresh : Provider → Result String String × Provider
  without_refresh p =
      if p.tokens.access_token == ""
      then (err "no access token available (run `slack-mcp-extender login`)", p)
      else (ok p.tokens.access_token, p)

  -- A token is fresh up to thirty seconds before it expires.
  unfoldable pub token : Provider → Result String String × Provider
  unfolding refresh_tokens save_tokens
  token p =
      if p.tokens.refresh_token == ""
      then without_refresh p
      else (if not (p.tokens.access_token == "") && ltb_ℤ (pos (now + 30)) p.tokens.expires_at
          then (ok p.tokens.access_token, p)
          else refreshed p (refresh_tokens p.tokens.refresh_token))

unfoldable pub invalidate : Provider → Provider
invalidate p = record p { tokens = record p.tokens { access_token = ""; expires_at = pos 0 } }

-- `NewStoredTokenProvider`
unfoldable pub new_provider : Disk → StateDir → Result String Provider
unfolding load_tokens
new_provider disk dir = do
  tokens ←
      wrapped "no stored tokens (run `slack-mcp-extender login` first): " (load_tokens disk dir)
  ok (record { tokens = tokens; dir = dir; warned = [] })
