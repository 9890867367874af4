-- ===== src/Transfer/Upload.antt =====
-- `Client.Upload`: the upload in three steps.
pub mod Ordered
use slack_mcp_extender.Base.{
  ℕ, String, ◌<>◌, Bool, ◌||◌, Option, none, some, List, [], ◌∷◌, ◌++◌, if◌then◌else◌, ◌==◌, eqb,
}
use slack_mcp_extender.Base.Int.{ℤ, pos}
use slack_mcp_extender.Base.Result.{Result, err, ok}
use slack_mcp_extender.Json.{Json, str, array, object}
use slack_mcp_extender.Filepath.{base}
use slack_mcp_extender.Transfer.Types.{UploadRequest, UploadResult, TransferError, failed}
use slack_mcp_extender.Transfer.Http.{Response, limit_reader}
use slack_mcp_extender.Transfer.Io.{
  file_body, Request, Io, lift, ◌>>=◌, ◌>>◌, checked, unless_error,
}
use slack_mcp_extender.Transfer.Web.{UploadUrl, Web, Client}
use slack_mcp_extender.Transfer.Client.{given, exchange, api_call}

abbrev pub display_name : UploadRequest → String
display_name req = if req.filename == "" then base req.path else req.filename

-- The bytes go to the upload URL without a token: the URL is the credential.
unfoldable pub bytes_request : UploadRequest → ℤ → UploadUrl → Request
bytes_request req size url = record {
  method = "POST";
  url = url.upload_url;
  headers = ("Content-Type", "application/octet-stream") ∷ [];
  body = file_body req.path size;
}

abbrev pub optional : String → String → List (String × Json)
optional key value = if value == "" then [] else (key, str value) ∷ []

-- The members stand in the order in which a Go map is written.
unfoldable pub complete_body : UploadRequest → UploadUrl → Json
complete_body req url = object (
    ("channel_id", str req.channel_id)
    ∷ ("files", array (object (("id", str url.file_id) ∷ []) ∷ []))
    ∷ (optional "initial_comment" req.comment ++ optional "thread_ts" req.thread_ts))

abbrev pub has_url : UploadUrl → Result TransferError (Unit {0})
has_url url =
    if url.upload_url == "" || url.file_id == ""
    then err (failed "files.getUploadURLExternal: response missing upload_url/file_id")
    else ok tt

abbrev pub discard : List ℕ → Result String (Unit {0})
discard bytes = ok tt

abbrev pub result_of : UploadRequest → ℤ → UploadUrl → UploadResult
result_of req size url = record {
  file_id = url.file_id;
  filename = display_name req;
  size = size;
  channel_id = req.channel_id;
  thread_ts = req.thread_ts;
}

module _ {S : Type 0} (client : Client S) where
  unfoldable pub accept_bytes : Response → Result TransferError (Unit {0})
  unfolding limit_reader
  accept_bytes response =
      if eqb response.status 200
      then ok tt
      else err (
          failed (
            "upload bytes: HTTP "
            <> (client.web.decimal (pos response.status)
                <> (": "
                    <> client.web.text_of_bytes (limit_reader response.body (pos 4096)).bytes))))

  abbrev pub url_query : UploadRequest → ℤ → List (String × String)
  url_query req size = ("filename", display_name req) ∷ ("length", client.web.decimal size) ∷ []

  -- Step 3: the file is shared.
  unfoldable pub complete : UploadRequest → ℤ → UploadUrl → Io S UploadResult
  unfolding api_call complete_body
  complete req size url = do
    api_call client discard "POST" "files.completeUploadExternal" [] (some (complete_body req url))
    lift (ok (result_of req size url))

  -- Step 2: the bytes are sent.
  unfoldable pub send_bytes : UploadRequest → ℤ → UploadUrl → Io S UploadResult
  unfolding exchange accept_bytes bytes_request complete
  send_bytes req size url = do
    lift (has_url url)
    lift (unless_error (λ e. "open file: " <> e) (client.web.open_error req.path))
    lift (
        unless_error (λ e. "build upload request: " <> e)
          (client.web.new_request "POST" url.upload_url))
    response ← exchange client (λ e. "upload bytes: " <> e) (bytes_request req size url)
    lift (accept_bytes response)
    complete req size url

  -- Step 1: an upload URL.
  unfoldable pub obtain_url : UploadRequest → ℤ → Io S UploadUrl
  unfolding api_call
  obtain_url req size =
      api_call client client.web.decode_upload_url "GET" "files.getUploadURLExternal"
        (url_query req size) none

  unfoldable pub upload : UploadRequest → Io S UploadResult
  unfolding obtain_url send_bytes base
  upload req = do
    lift (given client req.channel_id "channel_id is required")
    lift (given client req.path "path is required")
    size ← lift (checked (λ e. "stat file: " <> e) (client.web.stat_size req.path))
    url ← obtain_url req size
    send_bytes req size url
