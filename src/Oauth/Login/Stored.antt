-- ===== src/Oauth/Login/Stored.antt =====
-- What a login that succeeds leaves for the other commands.
use slack_mcp_extender.Base.{ℕ, String, ◌≡◌, ◌≢◌, refl, sym, subst, ◌∙◌, none, [], eqb}
use slack_mcp_extender.Base.Int.{pos}
use slack_mcp_extender.Base.Result.{Result, ok, wrapped, guard->>-eq-ok, >>-eq-ok, >>=-eq-ok}
use slack_mcp_extender.Config.Types.{OAuth, System}
use slack_mcp_extender.Transfer.Http.{limit_reader}
use slack_mcp_extender.Transfer.Web.{read_all}
use slack_mcp_extender.Transport.Tokenfile.{
  StoredTokens, StateDir, Disk, Saved, load_tokens, save_tokens,
}
use slack_mcp_extender.Transport.Tokenfile.Saved.{
  Decodes, IsSaved, failed, saved, save_tokens-IsSaved,
}
use slack_mcp_extender.Transport.Tokens.{Endpoint, unless_error, new_provider}
use slack_mcp_extender.Transport.Tokens.Kept.{parse_token_response-filled}
use slack_mcp_extender.Oauth.Login.{
  Browser, Attempt, code_request, exchange_code, save_error, login,
}
use slack_mcp_extender.Oauth.Login.Bound.{Picks, IsBound, refused, saves, login-IsBound}

-- A provider with these tokens, of which the access token is not empty.
pub record Starts (disk : Disk) (dir : StateDir) : Type 0 where
  pub tokens : StoredTokens
  pub filled : tokens.access_token ≢ ""
  pub provider : new_provider disk dir ≡ ok (record { tokens = tokens; dir = dir; warned = [] })

module _ (timeout : String) (sys : System) (browser : Browser) (picks : Picks timeout browser)
    (endpoint : Endpoint) (disk : Disk) (now : ℕ) (cfg : OAuth) where
  exchange_code-filled :
      (a : Attempt) (code : String) (tokens : StoredTokens)
      → exchange_code sys browser endpoint disk now cfg a code ≡ ok tokens
      → tokens.access_token ≢ ""
  unfolding exchange_code
  exchange_code-filled a code tokens h =
      let (_, h0) =
        >>-eq-ok
          (unless_error "build token exchange request: " (endpoint.new_request cfg.token_url)) _
          h in
      let (response, _, h1) =
        >>=-eq-ok
          (wrapped "token exchange request: "
            (endpoint.exchange (code_request sys browser endpoint disk now cfg a code)))
          _ h0 in
      let (bytes, _, h2) =
        >>=-eq-ok
          (wrapped "read token response: " (read_all (limit_reader response.body (pos 1048576)))) _
          h1 in
      let (_, h3) = guard->>-eq-ok (eqb response.status 200) _ _ h2 in
      parse_token_response-filled now (endpoint.decode bytes) tokens h3

  module _ (decodes : Decodes disk) (readable : disk.read_error ≡ none) where
    load_saved :
        (tokens : StoredTokens) (dir : StateDir) (outcome : Saved disk)
        → IsSaved disk decodes tokens dir outcome
        → save_error sys browser endpoint disk now cfg outcome.0 ≡ ok tt
        → load_tokens disk outcome.1 ≡ ok tokens
    load_saved tokens dir outcome (failed same) h = cc
    load_saved tokens dir outcome (saved loads clean) h = loads readable

    starts :
        (tokens : StoredTokens) (dir : StateDir)
        → tokens.access_token ≢ ""
        → load_tokens disk dir ≡ ok tokens
        → Starts disk dir
    unfolding new_provider
    starts tokens dir filled loaded = record {
      tokens = tokens;
      filled = filled;
      provider = rw loaded refl;
    }

    by_end :
        (dir : StateDir) (outcome : Result String (Unit {0}) × StateDir)
        → IsBound timeout sys browser picks endpoint disk now cfg dir outcome
        → outcome.0 ≡ ok tt
        → Starts disk outcome.1
    by_end dir outcome refused h = cc
    by_end dir outcome (saves tokens bound reported after) h =
        starts tokens outcome.1
          (exchange_code-filled bound.attempt bound.code tokens bound.exchanged)
          (subst (λ d. load_tokens disk d ≡ ok tokens) (sym after)
            (load_saved tokens dir (save_tokens disk tokens dir)
              (save_tokens-IsSaved disk decodes tokens dir) (sym reported ∙ h)))

    -- Where the decoder reads back what the encoder writes and the file can be read, a login that
    -- succeeds leaves a state directory from which mcp gets its token provider, with an access token
    -- that is not empty.
    pub login-Starts :
        (dir after : StateDir)
        → login sys browser endpoint disk now cfg dir ≡ (ok tt, after)
        → Starts disk after
    login-Starts dir after h =
        subst (λ o. o.0 ≡ ok tt → Starts disk o.1) h
          (by_end dir (login sys browser endpoint disk now cfg dir)
            (login-IsBound timeout sys browser picks endpoint disk now cfg dir))
          refl
