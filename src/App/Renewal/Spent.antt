-- ===== src/App/Renewal/Spent.antt =====
-- A server that rejects a token that cannot be renewed.
use slack_mcp_extender.Base.{
  ℕ, String, ◌<>◌, ◌≡◌, refl, ap, ◌∙◌, Bool, false, Option, none, some, [], ◌∷◌, ◌++◌,
  if◌then◌else◌, ◌==◌, eqb,
}
use slack_mcp_extender.Base.Result.{Result, err, ok, wrapped}
use slack_mcp_extender.Base.Action.{lift, next, ◌>>=◌, ◌>>◌}
use slack_mcp_extender.Transfer.Web.{TokenProvider}
use slack_mcp_extender.Transport.Tokenfile.{Disk}
use slack_mcp_extender.Transport.Tokens.{StoredTokenConfig, Endpoint, Provider, token, invalidate}
use slack_mcp_extender.Transport.Session.{
  Reply, Session, Server, bearer, post_request, request_made, authorized, authorize, exchange_post,
  do_post, handle_response, after_second, after_first, retry, send,
}
use slack_mcp_extender.App.Renewal.{stored_provider}

-- There is nothing to send, and nothing to renew it with.
abbrev pub IsSpent : Provider → Type 0
IsSpent p = (p.tokens.access_token ≡ "") × (p.tokens.refresh_token ≡ "")

abbrev pub no_token : String
no_token = "no access token available (run `slack-mcp-extender login`)"

abbrev pub refusal : String
refusal = "obtain auth token: " <> no_token

module _ (cfg : StoredTokenConfig) (disk : Disk) (endpoint : Endpoint) (now : ℕ) where
  token-spent : (p : Provider) → IsSpent p → token cfg disk endpoint now p ≡ (err no_token, p)
  unfolding token
  token-spent p (no_access, no_refresh) = rw (no_refresh, no_access) refl

  token-unrenewable :
      (p : Provider)
      → p.tokens.refresh_token ≡ ""
      → (p.tokens.access_token == "") ≡ false
      → token cfg disk endpoint now p ≡ (ok p.tokens.access_token, p)
  unfolding token
  token-unrenewable p no_refresh filled = rw (no_refresh, filled) refl

  module _ {R : Type 0} (server : Server (Provider × R))
      (auth : server.auth ≡ some (stored_provider cfg disk endpoint now))
      (buildable : server.new_request ≡ none) where
    abbrev attempt :
        String
        → Session (Provider × R)
        → Result String String × Provider
        → Result String Reply × Session (Provider × R)
    attempt line st (r, p) =
        next (exchange_post server line) (authorized server (r, (p, st.remote.1)) st)

    abbrev chain :
        String
        → Session (Provider × R)
        → Bool
        → Option String
        → Option (TokenProvider (Provider × R))
        → Result String Reply × Session (Provider × R)
    chain line st closed new_request tokens =
        (lift (if closed then err "transport is closed" else ok tt)
            >> (lift (request_made server new_request)
                >> (authorize server tokens >>= λ h. exchange_post server line h)))
          st

    -- The post of an open transport.
    do_post-attempt :
        (line : String) (st : Session (Provider × R))
        → st.is_closed ≡ false
        → do_post server line st ≡ attempt line st (token cfg disk endpoint now st.remote.0)
    unfolding do_post stored_provider
    do_post-attempt line st h = λ i. chain line st (h i) (buildable i) (auth i)

    do_post-spent :
        (line : String) (st : Session (Provider × R))
        → st.is_closed ≡ false
        → IsSpent st.remote.0
        → do_post server line st ≡ (err refusal, st)
    do_post-spent line st h spent =
        do_post-attempt line st h ∙ ap (attempt line st) (token-spent st.remote.0 spent)

    send-spent :
        (line : String) (st : Session (Provider × R))
        → st.is_closed ≡ false
        → IsSpent st.remote.0
        → send server line st ≡ (err refusal, st)
    unfolding send
    send-spent line st h spent =
        ap (next (after_first server server.auth line)) (do_post-spent line st h spent)

    -- The world after the first post, and after the token is invalidated.
    abbrev pub posted_with : String → Session (Provider × R) → Session (Provider × R)
    posted_with line st =
        let post = post_request st.session_id line (bearer st.remote.0.tokens.access_token) in
        record st { remote = (server.exchange post st.remote).1; posts = st.posts ++ (post ∷ []) }

    abbrev pub spent_after : String → Session (Provider × R) → Session (Provider × R)
    spent_after line st = record (posted_with line st) {
      remote =
          ((stored_provider {R = R} cfg disk endpoint now).invalidate (posted_with line st).remote);
    }

    module _ (line : String) (st : Session (Provider × R)) (reply : Reply)
        (is_open : st.is_closed ≡ false) (no_refresh : st.remote.0.tokens.refresh_token ≡ "")
        (filled : (st.remote.0.tokens.access_token == "") ≡ false)
        (kept : (posted_with line st).remote.0 ≡ st.remote.0)
        (answered : (server.exchange
            (post_request st.session_id line (bearer st.remote.0.tokens.access_token))
            st.remote).0
          ≡ ok reply)
        (rejected : reply.status ≡ 401) where
      first_post : do_post server line st ≡ (ok reply, posted_with line st)
      first_post =
          do_post-attempt line st is_open
          ∙ (ap (attempt line st) (token-unrenewable st.remote.0 no_refresh filled)
              ∙ ap (λ r. (wrapped "HTTP POST: " r, posted_with line st)) answered)

      spent_after-IsSpent : IsSpent (spent_after line st).remote.0
      unfolding stored_provider invalidate
      spent_after-IsSpent = (refl, ap (λ p. p.tokens.refresh_token) kept ∙ no_refresh)

      retried :
          retry server (stored_provider cfg disk endpoint now) line (posted_with line st)
          ≡ (err refusal, spent_after line st)
      unfolding retry
      retried =
          ap (next (after_second server))
            (do_post-spent line (spent_after line st) is_open spent_after-IsSpent)

      send-rejected : send server line st ≡ (err refusal, spent_after line st)
      unfolding send
      send-rejected =
          ap (next (after_first server server.auth line)) first_post
          ∙ (ap (λ a. after_first server a line reply (posted_with line st)) auth
              ∙ (ap
                    (λ n.
                      if eqb n 401
                      then retry server (stored_provider cfg disk endpoint now) line
                          (posted_with line st)
                      else handle_response server reply (posted_with line st))
                    rejected
                  ∙ retried))

      -- If the stored tokens have an access token and no refresh token, a server that answers 401
      -- to an open transport, and leaves the tokens alone, ends its use: that Send and every later
      -- one fail for want of a token, the first after its one post and the later ones without a post
      -- or any other change.
      pub send-refuses :
          (send server line st ≡ (err refusal, spent_after line st))
          × ((later : String)
              → send server later (spent_after line st) ≡ (err refusal, spent_after line st))
      send-refuses = (
        send-rejected,
        λ later. send-spent later (spent_after line st) is_open spent_after-IsSpent,
      )
