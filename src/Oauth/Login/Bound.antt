-- ===== src/Oauth/Login/Bound.antt =====
-- What binds the tokens that a login saves to the callback that it waited for.
use slack_mcp_extender.Base.{ℕ, String, ◌≡◌, refl, subst, none, some, In}
use slack_mcp_extender.Base.Result.{Result, err, ok, wrapped, >>=-eq-ok}
use slack_mcp_extender.Config.Types.{OAuth, System}
use slack_mcp_extender.Transport.Forms.{Form, find}
use slack_mcp_extender.Transport.Credentials.{TokenRequest}
use slack_mcp_extender.Transport.Credentials.Placed.{apply_client_auth-keeps}
use slack_mcp_extender.Transport.Tokenfile.{StoredTokens, StateDir, Disk, save_tokens}
use slack_mcp_extender.Transport.Tokens.{Endpoint}
use slack_mcp_extender.Oauth.Callback.{Channels, no_signals, arrivals, Selects}
use slack_mcp_extender.Oauth.Callback.Checked.{Grants, selected-Grants}
use slack_mcp_extender.Oauth.Login.{
  Browser, Attempt, prepare, authorize_params, wait, client_auth, code_form, code_request,
  exchange_code, save_error, keep, login,
}

-- `select` takes what is there, or the time is up.
abbrev pub Picks : String → Browser → Type 0
Picks timeout browser = (channels : Channels) → Selects timeout channels (browser.select channels)

module _ (timeout : String) (sys : System) (browser : Browser) (picks : Picks timeout browser)
    (endpoint : Endpoint) (disk : Disk) (now : ℕ) (cfg : OAuth) where
  -- The parameters that the browser is given, whatever the configured URL has.
  pub record Asks (a : Attempt) (params : Form) : Type 0 where
    pub response_type : find "response_type" params ≡ some "code"
    pub client_id : find "client_id" params ≡ some cfg.client_id
    pub redirect_uri : find "redirect_uri" params ≡ some a.redirect_uri
    pub state : find "state" params ≡ some a.state
    pub code_challenge : find "code_challenge" params ≡ some (browser.challenge a.verifier)
    pub code_challenge_method : find "code_challenge_method" params ≡ some "S256"

  -- The form that is exchanged for the tokens.
  pub record Redeems (a : Attempt) (code : String) (form : Form) : Type 0 where
    pub grant_type : find "grant_type" form ≡ some "authorization_code"
    pub code_given : find "code" form ≡ some code
    pub redirect_uri : find "redirect_uri" form ≡ some a.redirect_uri
    pub code_verifier : find "code_verifier" form ≡ some a.verifier

  authorize_params-Asks :
      (a : Attempt) (params : Form)
      → Asks a (authorize_params sys browser endpoint disk now cfg a params)
  unfolding authorize_params find
  authorize_params-Asks a params = record {
    response_type = refl;
    client_id = refl;
    redirect_uri = refl;
    state = refl;
    code_challenge = refl;
    code_challenge_method = refl;
  }

  code_request-Redeems :
      (a : Attempt) (code : String)
      → Redeems a code (code_request sys browser endpoint disk now cfg a code).form
  unfolding code_request find
  code_request-Redeems a code =
      let before : TokenRequest = record {
        url = cfg.token_url;
        basic = none;
        form = code_form sys browser endpoint disk now cfg a code;
      } in
      let auth = client_auth sys browser endpoint disk now cfg in
      record {
        grant_type = apply_client_auth-keeps auth before "grant_type" refl refl;
        code_given = apply_client_auth-keeps auth before "code" refl refl;
        redirect_uri = apply_client_auth-keeps auth before "redirect_uri" refl refl;
        code_verifier = apply_client_auth-keeps auth before "code_verifier" refl refl;
      }

  -- The tokens of a login.
  pub record Bound (tokens : StoredTokens) : Type 0 where
    pub attempt : Attempt
    pub own : Form
    pub query : Form
    pub code : String
    pub prepared : prepare sys browser endpoint disk now cfg ≡ ok attempt
    pub asks : Asks attempt (authorize_params sys browser endpoint disk now cfg attempt own)
    pub arrives :
        In query
          (browser.callbacks (authorize_params sys browser endpoint disk now cfg attempt own))
    pub grants : Grants attempt.state query code
    pub redeems :
        Redeems attempt code (code_request sys browser endpoint disk now cfg attempt code).form
    pub exchanged : exchange_code sys browser endpoint disk now cfg attempt code ≡ ok tokens

  wait-Grants :
      (a : Attempt) (code : String)
      → wait sys browser endpoint disk now cfg a ≡ ok code
      → (own : Form) × (query : Form) × In query
          (browser.callbacks (authorize_params sys browser endpoint disk now cfg a own))
        × Grants a.state query code
  unfolding wait
  wait-Grants a code h =
      let (own, _, picked) =
        >>=-eq-ok (wrapped "parse oauth.authorize_url: " (browser.query_of_url cfg.authorize_url)) _
          h in
      let queries = browser.callbacks (authorize_params sys browser endpoint disk now cfg a own) in
      let (query, arrives, grants) = selected-Grants browser.escape a.state timeout queries code (
        subst (Selects timeout (arrivals browser.escape a.state queries no_signals)) picked
          (picks (arrivals browser.escape a.state queries no_signals))) in
      (own, query, arrives, grants)

  bound :
      (tokens : StoredTokens) (a : Attempt) (code : String)
      → prepare sys browser endpoint disk now cfg ≡ ok a
      → wait sys browser endpoint disk now cfg a ≡ ok code
      → exchange_code sys browser endpoint disk now cfg a code ≡ ok tokens
      → Bound tokens
  bound tokens a code p w e =
      let (own, query, arrives, grants) = wait-Grants a code w in
      record {
        attempt = a;
        own = own;
        query = query;
        code = code;
        prepared = p;
        asks = authorize_params-Asks a own;
        arrives = arrives;
        grants = grants;
        redeems = code_request-Redeems a code;
        exchanged = e;
      }

  -- How a login may end: with an error and the directory as it was, or with the tokens, bound to the
  -- callback, handed to the file.
  pub data IsBound (dir : StateDir) : Result String (Unit {0}) × StateDir → Type 0 where
    refused : {e : String} → IsBound dir (err e, dir)
    saves :
        {r : Result String (Unit {0})} {after : StateDir} (tokens : StoredTokens)
        → Bound tokens
        → r ≡ save_error sys browser endpoint disk now cfg (save_tokens disk tokens dir).0
        → after ≡ (save_tokens disk tokens dir).1
        → IsBound dir (r, after)

  keep-IsBound :
      (r : Result String StoredTokens) (dir : StateDir)
      → ((tokens : StoredTokens) → r ≡ ok tokens → Bound tokens)
      → IsBound dir (keep sys browser endpoint disk now cfg r dir)
  keep-IsBound (err e) dir b = refused
  keep-IsBound (ok tokens) dir b = saves tokens (b tokens refl) refl refl

  -- If select takes a signal that is there or times out, a login fails and leaves the state directory
  -- as it was; or hands tokens to SaveTokens, from an exchange of the code of a callback that carries
  -- the login's own state, with the verifier whose challenge and with the redirect URI that the
  -- browser was given, whatever parameters the configured URL has.
  pub login-IsBound : (dir : StateDir) → IsBound dir (login sys browser endpoint disk now cfg dir)
  unfolding login
  login-IsBound dir = keep-IsBound _ dir (λ tokens h.
      let (a, p, h1) = >>=-eq-ok (prepare sys browser endpoint disk now cfg) _ h in
      let (code, w, e) = >>=-eq-ok (wait sys browser endpoint disk now cfg a) _ h1 in
      bound tokens a code p w e)
