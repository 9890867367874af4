-- ===== src/Transport/Tokens/Kept.antt =====
-- What a call of `Token` returns, and what it keeps.
use slack_mcp_extender.Base.{
  ℕ, ◌+◌, String, ◌≡◌, ◌≢◌, refl, sym, ◌∙◌, ap, subst, Option, none, some, List, true, not,
  Bool-cases, each_branch, split_test, inl, inr, ◌⊎◌, ◌==◌, eq_iff, eqb, arith,
}
use slack_mcp_extender.Base.Int.{pos, ltb_ℤ}
use slack_mcp_extender.Base.Result.{Result, err, ok, wrapped, guard->>-eq-ok, >>-eq-ok, >>=-eq-ok}
use slack_mcp_extender.Transfer.Web.{read_all}
use slack_mcp_extender.Transfer.Http.{limit_reader}
use slack_mcp_extender.Transport.Tokenfile.{StoredTokens, Disk, StateDir, save_tokens}
use slack_mcp_extender.Transport.Credentials.{refresh_request}
use slack_mcp_extender.Transport.Tokens.{
  TokenResponse, Endpoint, StoredTokenConfig, Provider, unless_error, renew, parse_token_response,
  is_refused, refresh_tokens, keep_refresh_token, refreshed, without_refresh, token,
}

-- How a call of `Token` may end.
pub data Ends (cfg : StoredTokenConfig) (disk : Disk) (endpoint : Endpoint) (now : ℕ) (p : Provider)
    : Result String String × Provider → Type 0 where
  fails : {e : String} → Ends cfg disk endpoint now p (err e, p)
  cached :
      p.tokens.access_token ≢ ""
      → (p.tokens.refresh_token ≡ "") ⊎ (ltb_ℤ (pos (now + 30)) p.tokens.expires_at ≡ true)
      → Ends cfg disk endpoint now p (ok p.tokens.access_token, p)
  is_renewed :
      {new : StoredTokens} {after : Provider}
      → refresh_tokens cfg disk endpoint now p.tokens.refresh_token ≡ ok new
      → new.access_token ≢ ""
      → after.tokens ≡ keep_refresh_token cfg disk endpoint now p.tokens new
      → after.tokens.refresh_token ≢ ""
      → after.dir ≡ (save_tokens disk after.tokens p.dir).1
      → Ends cfg disk endpoint now p (ok new.access_token, after)

not_empty : (s : String) → not (s == "") ≡ true → s ≢ ""
not_empty s h = λ e. ground (arith, eq_iff s "")

abbrev access_of : Result String StoredTokens → String
access_of (err e) = ""
access_of (ok tokens) = tokens.access_token

pub parse_token_response-filled :
    (now : ℕ) (decoded : Result String TokenResponse) (new : StoredTokens)
    → parse_token_response now decoded ≡ ok new
    → new.access_token ≢ ""
unfolding parse_token_response
parse_token_response-filled now (err e) new h = cc
parse_token_response-filled now (ok r) new h =
    let (_, h1) = guard->>-eq-ok (not (is_refused r.envelope_ok)) _ _ h in
    let (filled, h2) = guard->>-eq-ok (not (r.access_token == "")) _ _ h1 in
    subst (λ a. a ≢ "") (ap access_of h2) (not_empty r.access_token filled)

module _ (cfg : StoredTokenConfig) (disk : Disk) (endpoint : Endpoint) (now : ℕ) where
  refresh_tokens-filled :
      (refresh_token : String) (new : StoredTokens)
      → refresh_tokens cfg disk endpoint now refresh_token ≡ ok new
      → new.access_token ≢ ""
  unfolding refresh_tokens
  refresh_tokens-filled refresh_token new h =
      let (_, h0) =
        >>-eq-ok (unless_error "build refresh request: " (endpoint.new_request cfg.token_url)) _
          h in
      let (response, _, h1) =
        >>=-eq-ok
          (wrapped "refresh request: "
            (endpoint.exchange (refresh_request cfg.token_url cfg.client refresh_token)))
          _ h0 in
      let (bytes, _, h2) =
        >>=-eq-ok
          (wrapped "read refresh response: " (read_all (limit_reader response.body (pos 1048576))))
          _ h1 in
      let (_, h3) = guard->>-eq-ok (eqb response.status 200) _ _ h2 in
      parse_token_response-filled now (endpoint.decode bytes) new h3

  keep_refresh_token-filled :
      (old new : StoredTokens)
      → old.refresh_token ≢ ""
      → (keep_refresh_token cfg disk endpoint now old new).refresh_token ≢ ""
  keep_refresh_token-filled old new n = elim (Bool-cases (new.refresh_token == "")) [
    | inl t ↦ rw t n
    | inr f ↦ rw f (not_empty new.refresh_token (ap not f))
  ]

  -- The fields of a renewed provider.
  renew-fields :
      (warned : List String) (new : StoredTokens) (saved : Option String × StateDir)
      → ((renew cfg disk endpoint now warned new saved).tokens ≡ new)
        × ((renew cfg disk endpoint now warned new saved).dir ≡ saved.1)
  renew-fields warned new (none, dir) = (refl, refl)
  renew-fields warned new (some e, dir) = (refl, refl)

  refreshed-Ends :
      (p : Provider) (r : Result String StoredTokens)
      → p.tokens.refresh_token ≢ ""
      → refresh_tokens cfg disk endpoint now p.tokens.refresh_token ≡ r
      → Ends cfg disk endpoint now p (refreshed cfg disk endpoint now p r)
  refreshed-Ends p (err e) n h = fails
  refreshed-Ends p (ok new) n h =
      let kept = keep_refresh_token cfg disk endpoint now p.tokens new in
      let (same, saved) = renew-fields p.warned kept (save_tokens disk kept p.dir) in
      is_renewed h (refresh_tokens-filled p.tokens.refresh_token new h) same
        (subst (λ t. t.refresh_token ≢ "") (sym same) (keep_refresh_token-filled p.tokens new n))
        (saved ∙ ap (λ t. (save_tokens disk t p.dir).1) (sym same))

  without_refresh-Ends :
      (p : Provider)
      → p.tokens.refresh_token ≡ ""
      → Ends cfg disk endpoint now p (without_refresh cfg disk endpoint now p)
  without_refresh-Ends p none_left =
      each_branch (Ends cfg disk endpoint now p) (p.tokens.access_token == "") (λ t. fails)
        (λ f. cached (not_empty p.tokens.access_token (ap not f)) (inl none_left))

  -- A call of Token fails and keeps the provider; or returns the access token that it has, which is
  -- not empty, and is without a refresh token or does not expire within thirty seconds; or returns a
  -- new one that is not empty, from a refresh that succeeded, keeps a refresh token, and saves what it
  -- keeps.
  pub token-Ends : (p : Provider) → Ends cfg disk endpoint now p (token cfg disk endpoint now p)
  unfolding token
  token-Ends p =
      each_branch (Ends cfg disk endpoint now p) (p.tokens.refresh_token == "")
        (λ t. without_refresh-Ends p (ground (arith, eq_iff p.tokens.refresh_token "")))
        (λ f.
          split_test (not (p.tokens.access_token == ""))
            (ltb_ℤ (pos (now + 30)) p.tokens.expires_at) (Ends cfg disk endpoint now p)
            (λ filled fresh. cached (not_empty p.tokens.access_token filled) (inr fresh))
            (refreshed-Ends p (refresh_tokens cfg disk endpoint now p.tokens.refresh_token)
              (not_empty p.tokens.refresh_token (ap not f)) refl))
