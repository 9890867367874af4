-- ===== src/Proxy/Injected.antt =====
-- The injected tools as the pipe uses them.
use slack_mcp_extender.Base.{String, ◌≡◌, eq_iff, arith}
use slack_mcp_extender.Json.{Codec}
use slack_mcp_extender.Workdir.{Pathguard}
use slack_mcp_extender.Containment.Types.{Os}
use slack_mcp_extender.Transfer.Types.{Services}
use slack_mcp_extender.Tools.Handlers.{InjectedTools, State}
use slack_mcp_extender.Tools.Dispatch.{handles, handle}
use slack_mcp_extender.Tools.Definitions.{definitions}
use slack_mcp_extender.Jsonrpc.{names, mentions}
use slack_mcp_extender.Proxy.Pipe.{LocalTools}

abbrev pub local_tools :
    {S A : Type 0} → Codec → Os → Pathguard → Services S A → InjectedTools → LocalTools (State S A)
local_tools codec os pg svc tools = record {
  definitions = definitions;
  handles = handles;
  handle = handle codec os pg svc tools;
}

-- The names that the pipe keeps local are exactly those of the definitions that the merge gives the
-- agent.
pub handles-mentions : (name : String) → handles name ≡ mentions name (names definitions)
unfolding handles definitions
handles-mentions name = ground (
  arith,
  eq_iff name "ext_file_upload",
  eq_iff name "ext_file_upload_to_thread",
  eq_iff name "ext_file_download",
  eq_iff "ext_file_upload" name,
  eq_iff "ext_file_upload_to_thread" name,
  eq_iff "ext_file_download" name,
)
