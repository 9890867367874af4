-- ===== src/Tools/Handlers.antt =====
-- What both directions share: the state of a call, the policy for it, denials and the audit.
pub mod Policies
pub mod Audit
use slack_mcp_extender.Base.{
  String, ◌<>◌, Bool, Option, none, some, List, [], ◌∷◌, ◌++◌, if◌then◌else◌, ◌==◌,
}
use slack_mcp_extender.Base.Int.{ℤ, pos}
use slack_mcp_extender.Base.Result.{Result, ok, err}
use slack_mcp_extender.Json.{Json, null, str, array, strings, Codec, lookup, text_of}
use slack_mcp_extender.Workdir.{Pathguard, Meta, Failure, refused, failed, resolve}
use slack_mcp_extender.Containment.Types.{Violation, Policy, Os}
use slack_mcp_extender.Containment.Policy.{
  RootError, not_absolute, not_directory, unresolved, new_policy,
}
use slack_mcp_extender.Transfer.Types.{
  Services, AuditEntry, TransferError, slack_error, too_large, error_text,
}
use slack_mcp_extender.Transfer.Types
use slack_mcp_extender.Tools.Replies.{ToolResult, error_result, violation_text}

abbrev pub tool_file_upload : String
tool_file_upload = "ext_file_upload"

abbrev pub tool_file_upload_to_thread : String
tool_file_upload_to_thread = "ext_file_upload_to_thread"

abbrev pub tool_file_download : String
tool_file_download = "ext_file_download"

-- The operator's settings.
pub record InjectedTools : Type 0 where
  pub allow_hidden : Bool
  pub max_file_size : ℤ
  pub server_dirs : List String

-- The outside world, the audit log's file, the entries handed to `Append`, and the lines logged.
pub record State (S A : Type 0) : Type 0 where
  pub remote : S
  pub file : A
  pub audited : List AuditEntry
  pub logged : List String

-- `args[key].(string)`
abbrev pub argument : String → List (String × Json) → String
argument key args = text_of (lookup key args)

abbrev pub no_entry : AuditEntry
no_entry = record {
  tool = "";
  path = "";
  size = pos 0;
  channel_id = "";
  thread_ts = "";
  file_id = "";
  outcome = "";
  error = "";
}

abbrev log_failure : Option String → List String → List String
log_failure none lines = lines
log_failure (some e) lines =
    lines ++ (("slack-mcp-extender: audit write failed: " <> (e <> "\n")) ∷ [])

-- A failed write is logged, and changes nothing else.
unfoldable pub audit : {S A : Type 0} → Services S A → AuditEntry → State S A → State S A
audit svc entry st =
    let (failure, written) = svc.append entry st.file in
    record st {
      file = written;
      audited = st.audited ++ (entry ∷ []);
      logged = log_failure failure st.logged;
    }

abbrev pub root_error_text : Codec → RootError → String
root_error_text codec (not_absolute root) =
    "allowed root " <> (codec.quote root <> " is not absolute")
root_error_text codec (not_directory root) =
    "allowed root " <> (codec.quote root <> " is not a directory")
root_error_text codec (unresolved root e) = "allowed root " <> (codec.quote root <> (": " <> e))

abbrev pub refuse_work_dir : Codec → Failure → ToolResult
refuse_work_dir codec (refused e) = error_result codec e.code e.message e.details
refuse_work_dir codec (failed text) = error_result codec "internal_error" text []

abbrev pub with_directory :
    Codec → String → Result RootError Policy → Result ToolResult (String × Policy)
with_directory codec dir (ok p) = ok (dir, p)
with_directory codec dir (err e) =
    err (error_result codec "internal_error" (root_error_text codec e) [])

abbrev pub policy_in :
    Codec → Os → InjectedTools → Result Failure String → Result ToolResult (String × Policy)
policy_in codec os tools (ok dir) =
    with_directory codec dir
      (new_policy os (dir ∷ []) tools.server_dirs tools.allow_hidden tools.max_file_size)
policy_in codec os tools (err e) = err (refuse_work_dir codec e)

-- The work directory of a call, and the policy whose only root it is.
unfoldable pub policy_for :
    Codec → Os → Pathguard → InjectedTools → String → Meta → Result ToolResult (String × Policy)
policy_for codec os pg tools arg meta =
    policy_in codec os tools (resolve pg arg meta tools.server_dirs)

abbrev floor_field : String → List (String × Json)
floor_field floor = if floor == "" then [] else ("floor_reason", str floor) ∷ []

-- The one violation without roots has a nil slice.
abbrev roots_field : List String → Json
roots_field [] = null
roots_field (root ∷ roots) = array (strings (root ∷ roots))

-- A violation is audited and becomes the result.
unfoldable pub path_denied :
    {S A : Type 0}
    → Codec
    → Services S A
    → String
    → Violation
    → String
    → String
    → State S A
    → ToolResult × State S A
unfolding audit
path_denied codec svc tool v channel_id thread_ts st = (
  error_result codec "path_denied" (violation_text codec v) (
      floor_field v.floor
      ++ (("path", str v.path)
          ∷ ("reason", str v.reason)
          ∷ ("work_dir", roots_field v.roots)
          ∷ [])),
  audit svc
      (record no_entry {
        tool = tool;
        path = v.path;
        channel_id = channel_id;
        thread_ts = thread_ts;
        outcome = "denied";
        error = v.reason;
      })
      st,
)

-- The result for an error of the Slack API, or for another error under the given code.
unfoldable pub transfer_failure : Codec → String → TransferError → ToolResult
transfer_failure codec code (slack_error method reason) =
    error_result codec "slack_api_error" (error_text (slack_error method reason))
      (("method", str method) ∷ ("reason", str reason) ∷ [])
transfer_failure codec code (too_large text) = error_result codec code text []
transfer_failure codec code (Types.failed text) = error_result codec code text []
