-- ===== src/Transfer/Client.antt =====
-- `Client`, its calls of the Slack Web API with their one retry, and `Info`.
pub mod Retried
pub mod Asked
use slack_mcp_extender.Base.{
  ℕ, suc, String, ◌<>◌, Bool, true, false, ◌&&◌, ◌||◌, not, Option, none, some, List, [], ◌∷◌, ◌++◌,
  if◌then◌else◌, ◌==◌, eqb,
}
use slack_mcp_extender.Base.Int.{ℤ, pos}
use slack_mcp_extender.Base.Result.{Result, err, ok}
use slack_mcp_extender.Json.{Json}
use slack_mcp_extender.Transfer.Types.{FileInfo, TransferError, slack_error, failed}
use slack_mcp_extender.Transfer.Http.{Response}
use slack_mcp_extender.Transfer.Web.{
  TokenProvider, Envelope, UploadUrl, FileFields, Web, Client, labelled, read_reply,
}
use slack_mcp_extender.Transfer.Io.{
  RequestBody, no_body, json_body, file_body, Request, Net, Outcome, Io, lift, next, ◌>>=◌, ◌>>◌,
  checked, unless_error,
}

unfoldable pub api_base : {S : Type 0} → Client S → String
api_base client =
    if not (client.configured_base == "") then client.configured_base else "https://slack.com/api"

unfoldable pub is_auth_error : String → Bool
is_auth_error reason =
    reason == "invalid_auth"
    || reason == "token_revoked"
    || reason == "token_expired"
    || reason == "not_authed"

abbrev pub is_auth_failure : {V : Type 0} → Result TransferError V → Bool
is_auth_failure (err (slack_error method reason)) = is_auth_error reason
is_auth_failure _ = false

module _ {S : Type 0} (client : Client S) where
  abbrev pub sent : Request → Result String Response × S → Net S → Result String Response × Net S
  sent request (r, remote') net =
      (r, record { remote = remote'; requests = net.requests ++ (request ∷ []) })

  -- `http.Client.Do`, an error of which is wrapped.
  unfoldable pub exchange : (String → String) → Request → Io S Response
  exchange wrap request net =
      let (r, net') = sent request (client.web.exchange request net.remote) net in
      (checked wrap r, net')

  abbrev pub with_token :
      (String → String) → Result String String × S → Net S → Outcome S (List (String × String))
  with_token wrap (err e, remote') net = (err (failed (wrap e)), record net { remote = remote' })
  with_token wrap (ok token, remote') net =
      (ok (("Authorization", "Bearer " <> token) ∷ []), record net { remote = remote' })

  -- The header with the token, if the client has a provider.
  abbrev pub authorize_by :
      (String → String) → Option (TokenProvider S) → Io S (List (String × String))
  authorize_by wrap none net = (ok [], net)
  authorize_by wrap (some provider) net = with_token wrap (provider.token net.remote) net

  abbrev pub body_of : Option Json → RequestBody
  body_of none = no_body
  body_of (some value) = json_body value

  abbrev pub content_type : Option Json → List (String × String)
  content_type none = []
  content_type (some value) = ("Content-Type", "application/json; charset=utf-8") ∷ []

  abbrev pub marshal_failure : Option Json → Option String
  marshal_failure none = none
  marshal_failure (some value) = client.web.marshal_error value

  abbrev pub endpoint : String → List (String × String) → String
  endpoint api_method [] = api_base client <> ("/" <> api_method)
  endpoint api_method (param ∷ query) =
      api_base client <> ("/" <> (api_method <> ("?" <> client.web.encode_query (param ∷ query))))

  abbrev pub request_to :
      String → String → List (String × String) → Option Json → List (String × String) → Request
  request_to method api_method query value authorization = record {
    method = method;
    url = endpoint api_method query;
    headers = content_type value ++ authorization;
    body = body_of value;
  }

  module _ {V : Type 0} (decode : List ℕ → Result String V) (method api_method : String)
      (query : List (String × String)) (value : Option Json) where
    unfoldable pub api_call_once : Io S V
    unfolding exchange api_base read_reply
    api_call_once = do
      lift (
          unless_error (labelled client.web decode api_method "marshal body: ")
            (marshal_failure value))
      lift (
          unless_error (labelled client.web decode api_method "build request: ")
            (client.web.new_request method (endpoint api_method query)))
      authorization ←
          authorize_by (labelled client.web decode api_method "obtain token: ") client.tokens
      response ←
          exchange (labelled client.web decode api_method "")
            (request_to method api_method query value authorization)
      lift (read_reply client.web decode api_method response)

    abbrev pub has_provider : Option (TokenProvider S) → Bool
    has_provider none = false
    has_provider (some provider) = true

    abbrev pub invalidated : Option (TokenProvider S) → Net S → Net S
    invalidated none net = net
    invalidated (some provider) net = record net { remote = provider.invalidate net.remote }

    -- An authentication error invalidates the token, the first time.
    abbrev pub again : Bool → Result TransferError V → Bool
    again retried r = not retried && (is_auth_failure r && has_provider client.tokens)

    -- The loop of `apiCall`, with fuel.
    unfoldable pub api_loop : ℕ → Bool → Net S → Option (Outcome S V)
    unfolding api_call_once is_auth_error
    api_loop ℕ.zero retried net = none
    api_loop (suc rounds) retried net =
        let (r, net') = api_call_once net in
        let more = api_loop rounds true (invalidated client.tokens net') in
        if again retried r then more else some (r, net')

    -- What the loop comes to.
    unfoldable pub api_call : Io S V
    unfolding api_call_once is_auth_error
    api_call net =
        let (r, net') = api_call_once net in
        if again false r then api_call_once (invalidated client.tokens net') else (r, net')

  abbrev pub given : String → String → Result TransferError (Unit {0})
  given value e = if value == "" then err (failed e) else ok tt

  abbrev pub download_url : FileFields → String
  download_url file =
      if file.url_private_download == "" then file.url_private else file.url_private_download

  unfoldable pub info : String → Io S FileInfo
  unfolding api_call
  info file_id = do
    lift (given file_id "file_id is required")
    file ← api_call client.web.decode_file "GET" "files.info" (("file", file_id) ∷ []) none
    lift (
        given (download_url file)
          ("files.info: no download URL for " <> (file_id <> " (external or deleted file?)")))
    lift (
        ok (record {
          id = file.id;
          name = file.name;
          size = file.size;
          download_url = download_url file;
        }))
