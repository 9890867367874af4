-- ===== src/Tools/Dispatch.antt =====
-- `Handles` and `Handle`: which calls are local, and the handler of each.
pub mod Audited
use slack_mcp_extender.Base.{String, Bool, ◌||◌, List, if◌then◌else◌, ◌==◌}
use slack_mcp_extender.Json.{Json, Codec}
use slack_mcp_extender.Workdir.{Pathguard, Meta}
use slack_mcp_extender.Containment.Types.{Os}
use slack_mcp_extender.Transfer.Types.{Services}
use slack_mcp_extender.Tools.Replies.{ToolResult}
use slack_mcp_extender.Tools.Handlers.{
  InjectedTools, State, tool_file_upload, tool_file_upload_to_thread, tool_file_download,
}
use slack_mcp_extender.Tools.Upload.{handle_upload}
use slack_mcp_extender.Tools.Download.{handle_download}

unfoldable pub handles : String → Bool
handles name =
    name == tool_file_upload || name == tool_file_upload_to_thread || name == tool_file_download

unfoldable pub handle :
    {S A : Type 0}
    → Codec
    → Os
    → Pathguard
    → Services S A
    → InjectedTools
    → String
    → List (String × Json)
    → Meta
    → State S A
    → ToolResult × State S A
unfolding handle_upload handle_download
handle codec os pg svc tools name args meta st =
    if name == tool_file_download
    then handle_download codec svc os pg tools args meta st
    else handle_upload codec os pg svc tools name args meta st
