-- ===== src/Transport/Session/Closed.antt =====
-- A transport that is closed.
use slack_mcp_extender.Base.{
  String, ◌≡◌, refl, ap, true, if◌then◌else◌, each_branch, Option, none, some, ◌==◌,
}
use slack_mcp_extender.Base.Result.{Result, err, ok}
use slack_mcp_extender.Base.Action.{lift, ◌>>=◌, ◌>>◌}
use slack_mcp_extender.Transfer.Web.{TokenProvider}
use slack_mcp_extender.Transport.Session.{
  Session, Server, request_made, authorized, authorize, exchange_post, end_session, do_post,
  after_first, send, close,
}

module _ {S : Type 0} (server : Server S) where
  is_closed-authorize :
      (auth : Option (TokenProvider S)) (st : Session S)
      → (authorize server auth st).1.is_closed ≡ st.is_closed
  is_closed-authorize none st = refl
  is_closed-authorize (some provider) st = by_answer (provider.token st.remote)
    where
      by_answer :
          (answer : Result String String × S)
          → (authorized server answer st).1.is_closed ≡ st.is_closed
      by_answer (ok token, s) = refl
      by_answer (err e, s) = refl

  is_closed-end_session :
      (new_request : Option String) (st : Session S)
      → (end_session server new_request st).is_closed ≡ st.is_closed
  is_closed-end_session (some e) st = refl
  is_closed-end_session none st = is_closed-authorize server.auth st

  is_closed-close : (st : Session S) → (close server st).is_closed ≡ true
  unfolding close
  is_closed-close st =
      each_branch {A = Session S} (λ s. s.is_closed ≡ true) st.is_closed (λ t. t)
        (λ f.
          each_branch {A = Session S} (λ s. s.is_closed ≡ true) (st.session_id == "") (λ t. refl)
            (λ g. is_closed-end_session server.new_request (record st { is_closed = true })))

  close_closed : (st : Session S) → st.is_closed ≡ true → close server st ≡ st
  unfolding close
  close_closed st h = each_branch {A = Session S} (λ s. s ≡ st) st.is_closed (λ t. refl) (λ f. cc)

  send_closed :
      (line : String) (st : Session S)
      → st.is_closed ≡ true
      → send server line st ≡ (err "transport is closed", st)
  unfolding send do_post
  send_closed line st h =
      ap
        (λ closed.
          (lift (if closed then err "transport is closed" else ok tt)
              >> (lift (request_made server server.new_request)
                  >> (authorize server server.auth >>= λ a. exchange_post server line a))
              >>= λ reply. after_first server server.auth line reply)
            st)
        h

  -- After Close the transport stays closed: a second Close changes nothing, and Send fails at once,
  -- without a post and with every part of the state as it was.
  pub close_final :
      (st : Session S)
      → (close server (close server st) ≡ close server st)
        × ((line : String)
            → send server line (close server st) ≡ (err "transport is closed", close server st))
  close_final st = (
    close_closed (close server st) (is_closed-close st),
    λ line. send_closed line _ (is_closed-close st),
  )
