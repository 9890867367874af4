-- ===== src/Tools/Upload.antt =====
-- `handleUpload`: the tools that post a file.
pub mod Confined
pub mod Audited
use slack_mcp_extender.Base.{
  String, Bool, true, false, ◌||◌, ◌&&◌, List, [], ◌∷◌, if◌then◌else◌, ◌==◌,
}
use slack_mcp_extender.Base.Result.{Result, ok, err}
use slack_mcp_extender.Json.{Json, bool, int, str, Codec}
use slack_mcp_extender.Workdir.{Pathguard, Meta}
use slack_mcp_extender.Containment.Types.{Violation, Policy, Os}
use slack_mcp_extender.Containment.Upload.{resolve}
use slack_mcp_extender.Transfer.Types.{
  Services, UploadRequest, UploadResult, TransferError, error_text,
}
use slack_mcp_extender.Tools.Replies.{ToolResult, text_result, error_result}
use slack_mcp_extender.Tools.Handlers.{
  InjectedTools, State, argument, no_entry, audit, policy_for, path_denied, transfer_failure,
  tool_file_upload, tool_file_upload_to_thread,
}

-- The arguments of one call.
pub record Post : Type 0 where
  pub channel_id : String
  pub file : String
  pub work_dir : String
  pub comment : String
  pub filename : String
  pub thread_ts : String

abbrev pub post_of : List (String × Json) → Post
post_of args = record {
  channel_id = argument "channel_id" args;
  file = argument "file" args;
  work_dir = argument "work_dir" args;
  comment = argument "comment" args;
  filename = argument "filename" args;
  thread_ts = argument "thread_ts" args;
}

-- A root-message upload never threads.
abbrev pub thread_of : String → Post → String
thread_of name post = if name == tool_file_upload then "" else post.thread_ts

abbrev pub request_of : String → Post → String → UploadRequest
request_of name post canonical = record {
  path = canonical;
  filename = post.filename;
  channel_id = post.channel_id;
  comment = post.comment;
  thread_ts = thread_of name post;
}

module _ {S A : Type 0} (codec : Codec) (svc : Services S A) where
  abbrev upload_payload : UploadResult → List (String × Json)
  upload_payload result =
      ("channel_id", str result.channel_id)
      ∷ ("file_id", str result.file_id)
      ∷ ("filename", str result.filename)
      ∷ ("ok", bool true)
      ∷ ("size", int result.size)
      ∷ ("thread_ts", str result.thread_ts)
      ∷ []

  -- After the transfer: the audit entry and the result.
  unfoldable pub report_upload :
      String
      → Post
      → String
      → Result TransferError UploadResult
      → State S A
      → ToolResult × State S A
  unfolding audit
  report_upload name post canonical (err e) st = (
    transfer_failure codec "upload_failed" e,
    audit svc
        (record no_entry {
          tool = name;
          path = canonical;
          channel_id = post.channel_id;
          thread_ts = thread_of name post;
          outcome = "error";
          error = error_text e;
        })
        st,
  )
  report_upload name post canonical (ok result) st = (
    text_result codec false (upload_payload result),
    audit svc
        (record no_entry {
          tool = name;
          path = canonical;
          size = result.size;
          channel_id = result.channel_id;
          thread_ts = result.thread_ts;
          file_id = result.file_id;
          outcome = "ok";
        })
        st,
  )

  -- Containment has decided; what is left only executes.
  unfoldable pub send : String → Post → Result Violation String → State S A → ToolResult × State S A
  unfolding report_upload path_denied
  send name post (err v) st = path_denied codec svc name v post.channel_id (thread_of name post) st
  send name post (ok canonical) st =
      let (result, remote') = svc.upload (request_of name post canonical) st.remote in
      report_upload name post canonical result (record st { remote = remote' })

  unfoldable pub upload_within :
      Os
      → Pathguard
      → String
      → Post
      → Result ToolResult (String × Policy)
      → State S A
      → ToolResult × State S A
  unfolding send
  upload_within os pg name post (err refusal) st = (refusal, st)
  upload_within os pg name post (ok (dir, p)) st = send name post (resolve os pg p dir post.file) st

-- `channelID == "" || file == ""`, and the thread that a reply needs.
abbrev pub lacks_target : Post → Bool
lacks_target post = post.channel_id == "" || post.file == ""

abbrev pub lacks_thread : String → Post → Bool
lacks_thread name post = name == tool_file_upload_to_thread && post.thread_ts == ""

unfoldable pub no_target : Codec → ToolResult
no_target codec = error_result codec "invalid_arguments" "channel_id and file are required" []

unfoldable pub no_thread : Codec → ToolResult
no_thread codec =
    error_result codec "invalid_arguments" "thread_ts is required for ext_file_upload_to_thread" []

module _ {S A : Type 0} (codec : Codec) (os : Os) (pg : Pathguard) (svc : Services S A)
    (tools : InjectedTools) where
  unfoldable pub handle_upload :
      String → List (String × Json) → Meta → State S A → ToolResult × State S A
  unfolding upload_within policy_for no_target no_thread
  handle_upload name args meta st =
      let post = post_of args in
      if lacks_target post
      then (no_target codec, st)
      else if lacks_thread name post
      then (no_thread codec, st)
      else upload_within codec svc os pg name post (policy_for codec os pg tools post.work_dir meta)
          st
