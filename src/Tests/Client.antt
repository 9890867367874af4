-- ===== src/Tests/Client.antt =====
-- A Slack that answers an upload, the first time with a token that has expired.
use slack_mcp_extender.Base.{ℕ, String, ◌≡◌, refl, arith, true, false, none, some, List, [], ◌∷◌}
use slack_mcp_extender.Base.Int.{pos}
use slack_mcp_extender.Base.Result.{Result, ok, err}
use slack_mcp_extender.Transfer.Types.{UploadRequest, FileInfo, AuditEntry}
use slack_mcp_extender.Transfer.Http.{Response}
use slack_mcp_extender.Transfer.Io.{Request, Net}
use slack_mcp_extender.Transfer.Io.Runs.{Ran}
use slack_mcp_extender.Transfer.Web.{TokenProvider, Envelope, Web, Client}
use slack_mcp_extender.Transfer.Client.{api_loop, api_call}
use slack_mcp_extender.Transfer.Client.Retried.{api_loop-api_call}
use slack_mcp_extender.Transfer.Upload.{upload}
use slack_mcp_extender.Transfer.Upload.Ordered.{IsUpload, upload-IsUpload}
use slack_mcp_extender.Transfer.Audit.{AuditLog, append}
use slack_mcp_extender.Transfer.Audit.Appended.{IsAppended, append-IsAppended}
use slack_mcp_extender.Transfer.Service.{fetch, client_services}
use slack_mcp_extender.Transfer.Service.Fetched.{IsDownload, fetch-IsDownload}
use slack_mcp_extender.Tools.Upload.{handle_upload, post_of}
use slack_mcp_extender.App.Uploads.{CarriesSendable, handle_upload-CarriesSendable}
use slack_mcp_extender.Tests.World.{disk, guard}
use slack_mcp_extender.Tests.Tools.{codec, tools, post_args}
use slack_mcp_extender.Tests.Containment.{disk-KeepsAbsolute}
use slack_mcp_extender.Tests.Settings.{answers}

-- The state counts the invalidations; a body of one byte stands for an envelope.
abbrev reply : ℕ → Response
reply byte = record { status = 200; body = record { bytes = byte ∷ []; broken = none } }

abbrev envelope_of : List ℕ → Envelope
envelope_of (ℕ.zero ∷ bytes) = record { envelope_ok = false; error = "token_expired" }
envelope_of bytes = record { envelope_ok = true; error = "" }

abbrev web : Web ℕ
web = record {
  new_request = λ method url. none;
  exchange = λ request invalidations. (ok (reply invalidations), invalidations);
  encode_query = λ query. "q";
  marshal_error = λ value. none;
  decode_envelope = λ bytes. ok (envelope_of bytes);
  decode_upload_url = λ bytes. ok (record { upload_url = "https://up"; file_id = "F1" });
  decode_file = λ bytes. err "no file";
  text_of_bytes = λ bytes. "";
  decimal = λ n. "5";
  stat_size = λ path. ok (pos 5);
  open_error = λ path. none;
}

abbrev provider : TokenProvider ℕ
provider = record {
  token = λ invalidations. (ok "t", invalidations);
  invalidate = λ invalidations. 1;
}

abbrev client : Client ℕ
client = record { configured_base = ""; tokens = some provider; web = web }

abbrev request : UploadRequest
request = record {
  path = "/w/a.txt";
  filename = "";
  channel_id = "C1";
  comment = "";
  thread_ts = "17.5";
}

abbrev net : Net ℕ
net = record { remote = 0; requests = [] }

abbrev methods : List Request → List String
methods [] = []
methods (r ∷ rs) = r.url ∷ methods rs

-- The first call is made twice; the bytes and the share follow.
uploads :
    methods (upload client request net).1.requests
    ≡ "https://slack.com/api/files.getUploadURLExternal?q"
      ∷ "https://slack.com/api/files.getUploadURLExternal?q" ∷ "https://up"
      ∷ "https://slack.com/api/files.completeUploadExternal" ∷ []
unfolding upload
uploads = refl

abbrev no_fields : List ℕ → Result String (Unit {0})
no_fields bytes = ok tt

api_loop-api_call_example :
    api_loop client no_fields "GET" "files.info" [] none 2 false net
    ≡ some (api_call client no_fields "GET" "files.info" [] none net)
api_loop-api_call_example = api_loop-api_call client no_fields "GET" "files.info" [] none 0 net

upload-IsUpload_example : Ran (IsUpload client request) net (upload client request net)
upload-IsUpload_example = upload-IsUpload client request net

abbrev log : AuditLog
log = record {
  path = "/s/audit.jsonl";
  answers = record {
    line = λ entry. ok entry.outcome;
    dir_error = none;
    open_error = none;
    write_error = none;
    close_error = none;
  };
}

abbrev denied : AuditEntry
denied = record {
  tool = "ext_file_upload";
  path = "a.txt";
  size = pos 0;
  channel_id = "C1";
  thread_ts = "";
  file_id = "";
  outcome = "denied";
  error = "outside_work_dir";
}

append-IsAppended_example : IsAppended log denied ("ok" ∷ []) (append log denied ("ok" ∷ []))
append-IsAppended_example = append-IsAppended log denied ("ok" ∷ [])

handle_upload-CarriesSendable_example :
    CarriesSendable codec disk guard client answers log tools "ext_file_upload"
      (post_of post_args)
      []
      net
      (handle_upload codec disk guard
        (client_services client answers log)
        tools
        "ext_file_upload"
        post_args
        []
        (record { remote = net; file = []; audited = []; logged = [] })).1.remote
handle_upload-CarriesSendable_example =
    handle_upload-CarriesSendable codec disk guard client answers log tools disk-KeepsAbsolute
      "ext_file_upload" post_args [] (record { remote = net; file = []; audited = []; logged = [] })

abbrev remote_file : FileInfo
remote_file = record {
  id = "F1";
  name = "a.txt";
  size = pos 1;
  download_url = "https://files.slack.com/F1";
}

fetches : (fetch client answers remote_file "/w/a.txt" (pos 5) net).0 ≡ ok (pos 1)
unfolding fetch
fetches = refl

fetch-IsDownload_example :
    Ran
      (IsDownload client remote_file 5)
      net
      (fetch client answers remote_file "/w/a.txt" (pos 5) net)
fetch-IsDownload_example =
    fetch-IsDownload client remote_file 5 answers "/w/a.txt" (ground arith) (ground arith) net
