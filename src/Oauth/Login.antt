-- ===== src/Oauth/Login.antt =====
-- internal/oauth/login.go: `Login`.
pub mod Bound
pub mod Stored
use slack_mcp_extender.Base.{
  ℕ, String, ◌<>◌, Option, none, some, List, [], ◌∷◌, if◌then◌else◌, ◌==◌, eqb,
}
use slack_mcp_extender.Base.Int.{ℤ, pos}
use slack_mcp_extender.Base.Result.{Result, err, ok, guard, wrapped, ◌>>=◌, ◌>>◌}
use slack_mcp_extender.Config.Types.{OAuth, System}
use slack_mcp_extender.Config.Validate.{resolve_client_secret}
use slack_mcp_extender.Transfer.Http.{limit_reader}
use slack_mcp_extender.Transfer.Web.{read_all}
use slack_mcp_extender.Transport.Forms.{Form, set}
use slack_mcp_extender.Transport.Credentials.{ClientAuth, TokenRequest, apply_client_auth}
use slack_mcp_extender.Transport.Tokenfile.{StoredTokens, StateDir, Disk, Saved, save_tokens}
use slack_mcp_extender.Transport.Tokens.{Endpoint, unless_error, parse_token_response}
use slack_mcp_extender.Oauth.Callback.{Channels, no_signals, arrivals}

-- The listener with its port, the certificate, the random tokens, the hash of a verifier, the query of
-- a URL, the queries that reach the callback once the browser is given its parameters, and the choice
-- of `select`.
pub record Browser : Type 0 where
  pub listen : ℤ → Result String ℕ
  pub decimal_port : ℤ → String
  pub cert_error : Option String
  pub verifier : Result String String
  pub state : Result String String
  pub challenge : String → String
  pub query_of_url : String → Result String Form
  pub escape : String → String
  pub callbacks : Form → List Form
  pub select : Channels → Result String String

-- What the login makes up before it opens the browser.
pub record Attempt : Type 0 where
  pub redirect_uri : String
  pub verifier : String
  pub state : String

-- `strings.Join(scopes, " ")`
unfoldable pub join_scopes : List String → String
join_scopes [] = ""
join_scopes (scope ∷ []) = scope
join_scopes (scope ∷ next ∷ scopes) = scope <> (" " <> join_scopes (next ∷ scopes))

abbrev pub set_scope : List String → Form → Form
set_scope [] params = params
set_scope (scope ∷ scopes) params = set "scope" (join_scopes (scope ∷ scopes)) params

module _ (sys : System) (browser : Browser) (endpoint : Endpoint) (disk : Disk) (now : ℕ)
    (cfg : OAuth) where
  abbrev pub host : String
  host = if cfg.callback_scheme == "https" then "localhost" else "127.0.0.1"

  abbrev pub cert : Result String (Unit {0})
  cert =
      if cfg.callback_scheme == "https"
      then unless_error "generate self-signed cert for https callback: " browser.cert_error
      else ok tt

  abbrev pub listened : Result String ℕ → Result String ℕ
  listened (ok port) = ok port
  listened (err e) = err (
      "start callback server on port "
      <> (browser.decimal_port cfg.callback_port
          <> (": " <> (e <> " (adjust oauth.callback_port)"))))

  -- The callback's server, the verifier and the state.
  unfoldable pub prepare : Result String Attempt
  prepare = do
    port ← listened (browser.listen cfg.callback_port)
    cert
    verifier ← wrapped "generate PKCE verifier: " browser.verifier
    state ← wrapped "generate state: " browser.state
    ok (record {
      redirect_uri =
          cfg.callback_scheme
          <> ("://" <> (host <> (":" <> (endpoint.decimal port <> "/callback"))));
      verifier = verifier;
      state = state;
    })

  unfoldable pub authorize_params : Attempt → Form → Form
  unfolding set
  authorize_params a params = set "code_challenge_method" "S256" (
      set "code_challenge" (browser.challenge a.verifier) (
        set "state" a.state (
          set "redirect_uri" a.redirect_uri (
            set "client_id" cfg.client_id
              (set "response_type" "code" (set_scope cfg.scopes params))))))

  unfoldable pub wait : Attempt → Result String String
  unfolding arrivals authorize_params
  wait a = do
    params ← wrapped "parse oauth.authorize_url: " (browser.query_of_url cfg.authorize_url)
    browser.select
        (arrivals browser.escape a.state (browser.callbacks (authorize_params a params)) no_signals)

  abbrev pub client_auth : ClientAuth
  client_auth = record {
    method = cfg.client_auth_method;
    client_id = cfg.client_id;
    client_secret = resolve_client_secret sys cfg;
  }

  abbrev pub code_form : Attempt → String → Form
  code_form a code =
      ("grant_type", "authorization_code")
      ∷ ("code", code)
      ∷ ("redirect_uri", a.redirect_uri)
      ∷ ("code_verifier", a.verifier)
      ∷ []

  unfoldable pub code_request : Attempt → String → TokenRequest
  unfolding apply_client_auth
  code_request a code =
      apply_client_auth client_auth
        (record { url = cfg.token_url; basic = none; form = code_form a code })

  unfoldable pub exchange_code : Attempt → String → Result String StoredTokens
  unfolding code_request limit_reader parse_token_response
  exchange_code a code = do
    unless_error "build token exchange request: " (endpoint.new_request cfg.token_url)
    response ← wrapped "token exchange request: " (endpoint.exchange (code_request a code))
    bytes ← wrapped "read token response: " (read_all (limit_reader response.body (pos 1048576)))
    guard (eqb response.status 200) (
        "token exchange failed (HTTP "
        <> (endpoint.decimal response.status <> ("): " <> endpoint.text_of_bytes bytes)))
    parse_token_response now (endpoint.decode bytes)

  abbrev pub save_error : Option String → Result String (Unit {0})
  save_error none = ok tt
  save_error (some e) = err ("save tokens: " <> e)

  abbrev pub keep : Result String StoredTokens → StateDir → Result String (Unit {0}) × StateDir
  keep (err e) dir = (err e, dir)
  keep (ok tokens) dir = let (e, dir') = save_tokens disk tokens dir in (save_error e, dir')

  unfoldable pub login : StateDir → Result String (Unit {0}) × StateDir
  unfolding prepare wait exchange_code save_tokens
  login dir = keep (do attempt ← prepare; code ← wait attempt; exchange_code attempt code) dir
