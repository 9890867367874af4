-- ===== src/Transport/Session.antt =====
-- internal/transport/sse.go: the client transport, its posts and its session.
pub mod Attempts
pub mod Sent
pub mod Closed
use slack_mcp_extender.Base.{
  ℕ, String, ◌<>◌, Bool, true, false, Option, none, some, List, [], ◌∷◌, ◌++◌, if◌then◌else◌, ◌==◌,
  eqb, leb, has_prefix,
}
use slack_mcp_extender.Base.Result.{Result, err, ok, wrapped}
use slack_mcp_extender.Base.Action.{Action, lift, next, ◌>>=◌, ◌>>◌, modify}
use slack_mcp_extender.Transfer.Http.{Body, truncate}
use slack_mcp_extender.Transfer.Web.{TokenProvider, read_all}

pub record Post : Type 0 where
  pub method : String
  pub headers : List (String × String)
  pub line : String

pub record Reply : Type 0 where
  pub status : ℕ
  pub session_header : String
  pub content_type : String
  pub body : Body

-- `sseClientTransport` with the outside world, the messages queued, the bodies of the event streams
-- that a goroutine each consumes, and the requests so far.
pub record Session (S : Type 0) : Type 0 where
  pub remote : S
  pub is_closed : Bool
  pub session_id : String
  pub incoming : List String
  pub streams : List Body
  pub posts : List Post

-- The endpoint with net/http, the token provider if there is one, and texts of numbers and bytes.
pub record Server (S : Type 0) : Type 0 where
  pub new_request : Option String
  pub exchange : Post → S → Result String Reply × S
  pub auth : Option (TokenProvider S)
  pub text_of_bytes : List ℕ → String
  pub decimal : ℕ → String

abbrev pub session_field : String → List (String × String)
session_field session_id = if session_id == "" then [] else ("Mcp-Session-Id", session_id) ∷ []

abbrev pub post_request : String → String → List (String × String) → Post
post_request session_id line authorization = record {
  method = "POST";
  headers =
      ("Content-Type", "application/json")
      ∷ ("Accept", "application/json, text/event-stream")
      ∷ (session_field session_id ++ authorization);
  line = line;
}

abbrev pub bearer : String → List (String × String)
bearer token = ("Authorization", "Bearer " <> token) ∷ []

module _ {S : Type 0} (server : Server S) where
  abbrev pub Sending : Type 0 → Type 0
  Sending V = Action (Session S) String V

  abbrev pub open_only : Session S → Result String (Unit {0})
  open_only st = if st.is_closed then err "transport is closed" else ok tt

  abbrev pub request_made : Option String → Result String (Unit {0})
  request_made none = ok tt
  request_made (some e) = err ("create request: " <> e)

  abbrev pub authorized :
      Result String String × S → Session S → Result String (List (String × String)) × Session S
  authorized (ok token, remote') st = (ok (bearer token), record st { remote = remote' })
  authorized (err e, remote') st =
      (err ("obtain auth token: " <> e), record st { remote = remote' })

  abbrev pub authorize : Option (TokenProvider S) → Sending (List (String × String))
  authorize none st = (ok [], st)
  authorize (some provider) st = authorized (provider.token st.remote) st

  abbrev pub posted : Post → Result String Reply × S → Session S → Result String Reply × Session S
  posted post (r, remote') st =
      (wrapped "HTTP POST: " r, record st { remote = remote'; posts = st.posts ++ (post ∷ []) })

  abbrev pub exchange_post : String → List (String × String) → Sending Reply
  exchange_post line authorization st =
      let post = post_request st.session_id line authorization in
      posted post (server.exchange post st.remote) st

  unfoldable pub do_post : String → Sending Reply
  do_post line = do
    (λ st. (open_only st, st))
    lift (request_made server.new_request)
    authorization ← authorize server.auth
    exchange_post line authorization

  abbrev pub enqueue : String → Session S → Session S
  enqueue line st = record st { incoming = st.incoming ++ (line ∷ []) }

  abbrev pub keep_session : String → Session S → Session S
  keep_session header st = record st { session_id = if header == "" then st.session_id else header }

  abbrev pub queue_json : Result String (List ℕ) → Sending (Unit {0})
  queue_json (ok bytes) st = (ok tt, enqueue (server.text_of_bytes bytes) st)
  queue_json (err e) st = (err ("read response body: " <> e), st)

  abbrev pub is_empty : List ℕ → Bool
  is_empty [] = true
  is_empty (b ∷ bytes) = false

  -- Neither JSON nor a stream: the error of reading the body is ignored.
  abbrev pub queue_other : ℕ → List ℕ → Sending (Unit {0})
  queue_other status bytes st =
      if leb 400 status
      then (
        err (
            "HTTP "
            <> (server.decimal status <> (": " <> truncate server.text_of_bytes bytes 200))),
        st,
      )
      else (ok tt, if is_empty bytes then st else enqueue (server.text_of_bytes bytes) st)

  abbrev pub by_type : Reply → Sending (Unit {0})
  by_type reply st =
      if has_prefix reply.content_type "application/json"
      then queue_json (read_all reply.body) st
      else (if has_prefix reply.content_type "text/event-stream"
          then (ok tt, record st { streams = st.streams ++ (reply.body ∷ []) })
          else queue_other reply.status reply.body.bytes st)

  unfoldable pub handle_response : Reply → Sending (Unit {0})
  unfolding truncate
  handle_response reply st = by_type reply (keep_session reply.session_header st)

  unfoldable pub after_second : Reply → Sending (Unit {0})
  unfolding handle_response
  after_second reply st =
      if eqb reply.status 401
      then (
        err
            "HTTP 401: authentication failed after token refresh (run `slack-mcp-extender login` again)",
        st,
      )
      else handle_response reply st

  unfoldable pub retry : TokenProvider S → String → Sending (Unit {0})
  unfolding do_post after_second
  retry provider line = do
    modify (λ st. record st { remote = provider.invalidate st.remote })
    reply ← do_post line
    after_second reply

  abbrev pub after_first : Option (TokenProvider S) → String → Reply → Sending (Unit {0})
  after_first none line reply st = handle_response reply st
  after_first (some provider) line reply st =
      if eqb reply.status 401 then retry provider line st else handle_response reply st

  unfoldable pub send : String → Sending (Unit {0})
  unfolding do_post handle_response retry
  send line = do reply ← do_post line; after_first server.auth line reply

  abbrev pub delete_request : String → List (String × String) → Post
  delete_request session_id authorization = record {
    method = "DELETE";
    headers = ("Mcp-Session-Id", session_id) ∷ authorization;
    line = "";
  }

  abbrev pub authorization_of : Result String (List (String × String)) → List (String × String)
  authorization_of (ok headers) = headers
  authorization_of (err e) = []

  -- A token that cannot be had is left out.
  abbrev pub end_session : Option String → Session S → Session S
  end_session (some e) st = st
  end_session none st =
      let (r, st') = authorize server.auth st in
      let post = delete_request st.session_id (authorization_of r) in
      (posted post (server.exchange post st'.remote) st').1

  unfoldable pub close : Session S → Session S
  close st =
      if st.is_closed
      then st
      else (if st.session_id == ""
          then record st { is_closed = true }
          else end_session server.new_request (record st { is_closed = true }))
