-- ===== src/Transport/Session/Attempts.antt =====
-- The one or two posts of `Send`.
use slack_mcp_extender.Base.{
  ℕ, ◌≤◌, String, ◌≡◌, refl, sym, ap, subst, ◌∙◌, Option, none, some, List, [], ◌∷◌, ◌++◌,
  append-nil, append_assoc, All, All-append, length, length-append, arith,
}
use slack_mcp_extender.Base.Result.{Result, err, ok}
use slack_mcp_extender.Base.Action.{lift, next, ◌>>=◌, ◌>>◌}
use slack_mcp_extender.Transfer.Web.{TokenProvider}
use slack_mcp_extender.Transport.Session.{
  Post, Session, Server, post_request, open_only, request_made, authorized, authorize,
  exchange_post, do_post, bearer,
}

-- A post of this line in this session.
abbrev pub IsPost : String → String → Post → Type 0
IsPost session_id line post =
    (authorization : List (String × String)) × (post ≡ post_request session_id line authorization)

module _ {S : Type 0} (server : Server S) (line : String) where
  -- Attempts leave all but the world and the posts alone.
  pub record Attempted (n : ℕ) (before after : Session S) : Type 0 where
    pub incoming : after.incoming ≡ before.incoming
    pub streams : after.streams ≡ before.streams
    pub session : after.session_id ≡ before.session_id
    pub added : List Post
    pub extends : after.posts ≡ before.posts ++ added
    pub each : All (IsPost before.session_id line) added
    pub at_most : length added ≤ n

  unposted : (st : Session S) (remote' : S) → Attempted 1 st (record st { remote = remote' })
  unposted st remote' = record {
    incoming = refl;
    streams = refl;
    session = refl;
    added = [];
    extends = sym (append-nil _);
    each = tt;
    at_most = omega arith;
  }

  once :
      (st : Session S) (remote' : S) (authorization : List (String × String))
      → Attempted 1 st (record st {
        remote = remote';
        posts = st.posts ++ (post_request st.session_id line authorization ∷ []);
      })
  once st remote' authorization = record {
    incoming = refl;
    streams = refl;
    session = refl;
    added = post_request st.session_id line authorization ∷ [];
    extends = refl;
    each = ((authorization, refl), tt);
    at_most = omega arith;
  }

  authorized-Attempted :
      (answer : Result String String × S) (st : Session S)
      → Attempted 1 st (next (exchange_post server line) (authorized server answer st)).1
  authorized-Attempted (ok token, s) st = once st _ (bearer token)
  authorized-Attempted (err e, s) st = unposted st s

  authorize-Attempted :
      (auth : Option (TokenProvider S)) (st : Session S)
      → Attempted 1 st (next (exchange_post server line) (authorize server auth st)).1
  authorize-Attempted none st = once st _ []
  authorize-Attempted (some provider) st = authorized-Attempted (provider.token st.remote) st

  checked-Attempted :
      (first second : Result String (Unit {0})) (st : Session S)
      → Attempted 1 st
          ((lift first
              >> (lift second
                  >> (authorize server server.auth >>= λ h. exchange_post server line h)))
            st).1
  checked-Attempted (err e) second st = unposted st st.remote
  checked-Attempted (ok _) (err e) st = unposted st st.remote
  checked-Attempted (ok _) (ok _) st = authorize-Attempted server.auth st

  pub do_post-Attempted : (st : Session S) → Attempted 1 st (do_post server line st).1
  unfolding do_post
  do_post-Attempted st =
      checked-Attempted (open_only server st) (request_made server server.new_request) st

  pub Attempted-trans :
      (before middle after : Session S)
      → Attempted 1 before middle
      → (remote' : S) → Attempted 1 (record middle { remote = remote' }) after
      → Attempted 2 before after
  Attempted-trans before middle after a remote' b = record {
    incoming = b.incoming ∙ a.incoming;
    streams = b.streams ∙ a.streams;
    session = b.session ∙ a.session;
    added = a.added ++ b.added;
    extends =
        b.extends ∙ (ap (λ l. l ++ b.added) a.extends ∙ append_assoc before.posts a.added b.added);
    each =
        All-append (IsPost before.session_id line) a.added b.added a.each
          (subst (λ i. All (IsPost i line) b.added) a.session b.each);
    at_most = omega (arith, length-append a.added b.added, a.at_most, b.at_most);
  }
