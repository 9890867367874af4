-- ===== src/Tools/Dispatch/Audited.antt =====
-- Every local call is accounted for under the name that it was made by.
use slack_mcp_extender.Base.{
  String, Bool, ◌||◌, List, Bool-cases, inl, inr, if◌then◌else◌, ◌==◌, eq_iff,
}
use slack_mcp_extender.Json.{Json, Codec}
use slack_mcp_extender.Workdir.{Pathguard, Meta}
use slack_mcp_extender.Containment.Types.{Os}
use slack_mcp_extender.Transfer.Types.{Services}
use slack_mcp_extender.Tools.Handlers.{
  InjectedTools, State, argument, policy_for, tool_file_download,
}
use slack_mcp_extender.Tools.Handlers.Audit.{IsAccounted}
use slack_mcp_extender.Tools.Upload.Audited.{handle_upload-IsAccounted}
use slack_mcp_extender.Tools.Download.Audited.{handle_download-IsAccounted}
use slack_mcp_extender.Tools.Upload.{post_of, lacks_target, lacks_thread}
use slack_mcp_extender.Tools.Download.{fetch_of}
use slack_mcp_extender.Tools.Dispatch.{handle}

-- The test for a missing argument that the tool of that name makes.
abbrev pub lacks_arguments : String → List (String × Json) → Bool
lacks_arguments name args =
    if name == tool_file_download
    then (fetch_of args).file_id == ""
    else lacks_target (post_of args) || lacks_thread name (post_of args)

-- A call of a local tool that lacks an argument, or that gets no policy for its work directory, is
-- told an error and changes nothing. Any other, one whose file containment refuses included, adds one
-- entry to those handed to the audit log: it names the tool, and its outcome is "ok" where the caller
-- gets a result and "denied" or "error" where the caller gets an error.
pub handle-IsAccounted :
    {S A : Type 0} (codec : Codec) (os : Os) (pg : Pathguard) (svc : Services S A)
    (tools : InjectedTools) (name : String) (args : List (String × Json)) (meta : Meta)
    (st : State S A)
    → IsAccounted name
        (lacks_arguments name args)
        (policy_for codec os pg tools (argument "work_dir" args) meta)
        st
        (handle codec os pg svc tools name args meta st)
unfolding handle
handle-IsAccounted codec os pg svc tools name args meta st =
    elim (Bool-cases (name == tool_file_download)) [
      | inl e ↦
          rw (e, (eq_iff name tool_file_download).0 e)
            (handle_download-IsAccounted codec svc os pg tools args meta st)
      | inr e ↦ rw e (handle_upload-IsAccounted codec os pg svc tools name args meta st)
    ]
