-- ===== src/Tools/Upload/Audited.antt =====
-- Every upload call that has its arguments and a policy is in the audit log.
use slack_mcp_extender.Base.{String, ◌≡◌, refl, Bool, true, false, ◌||◌, Bool-cases, List, inl, inr}
use slack_mcp_extender.Base.Result.{Result, ok, err}
use slack_mcp_extender.Json.{Json, Codec}
use slack_mcp_extender.Workdir.{Pathguard, Meta}
use slack_mcp_extender.Containment.Types.{Violation, Policy, Os}
use slack_mcp_extender.Containment.Upload.{resolve}
use slack_mcp_extender.Transfer.Types.{Services, TransferError, UploadResult}
use slack_mcp_extender.Tools.Replies.{ToolResult, text_result, error_result}
use slack_mcp_extender.Tools.Handlers.{InjectedTools, State, argument, policy_for}
use slack_mcp_extender.Tools.Handlers.Policies.{is_error-policy_for}
use slack_mcp_extender.Tools.Handlers.Audit.{
  IsAccounted, lacks, no_directory, recorded, IsRecorded, path_denied-IsRecorded,
  is_error-transfer_failure,
}
use slack_mcp_extender.Tools.Upload.{
  Post, post_of, request_of, report_upload, send, upload_within, handle_upload, lacks_target,
  lacks_thread, no_target, no_thread,
}

module _ {S A : Type 0} (codec : Codec) (svc : Services S A) where
  report_upload-IsRecorded :
      (name : String) (post : Post) (canonical : String) (r : Result TransferError UploadResult)
      (st : State S A)
      → IsRecorded name st (report_upload codec svc name post canonical r st)
  unfolding report_upload text_result
  report_upload-IsRecorded name post canonical (ok result) st = record {
    entry = _;
    appended = refl;
    of_tool = refl;
    agrees = inl (refl, refl);
  }
  report_upload-IsRecorded name post canonical (err e) st = record {
    entry = _;
    appended = refl;
    of_tool = refl;
    agrees = inr (inr (refl, is_error-transfer_failure codec "upload_failed" e));
  }

  send-IsRecorded :
      (name : String) (post : Post) (r : Result Violation String) (st : State S A)
      → IsRecorded name st (send codec svc name post r st)
  unfolding send
  send-IsRecorded name post (err v) st = path_denied-IsRecorded codec svc name v _ _ st
  send-IsRecorded name post (ok canonical) st =
      let out = svc.upload (request_of name post canonical) st.remote in
      let r = report_upload-IsRecorded name post canonical out.0 (record st { remote = out.1 }) in
      record { entry = r.entry; appended = r.appended; of_tool = r.of_tool; agrees = r.agrees }

module _ {S A : Type 0} (codec : Codec) (os : Os) (pg : Pathguard) (svc : Services S A)
    (tools : InjectedTools) where
  upload_within-IsAccounted :
      (name : String) (post : Post) (policed : Result ToolResult (String × Policy)) (st : State S A)
      → ((refusal : ToolResult) → policed ≡ err refusal → refusal.is_error ≡ true)
      → IsAccounted name false policed st (upload_within codec svc os pg name post policed st)
  unfolding upload_within
  upload_within-IsAccounted name post (err refusal) st h =
      no_directory refusal refl refl (h refusal refl) refl
  upload_within-IsAccounted name post (ok (dir, p)) st h =
      recorded dir p refl refl
        (send-IsRecorded codec svc name post (resolve os pg p dir post.file) st)

  abbrev pub lacks_any : String → Post → Bool
  lacks_any name post = lacks_target post || lacks_thread name post

  -- An upload call that lacks an argument, or whose work directory is refused, is told an error and
  -- changes nothing; any other adds one entry for its tool whose outcome is the one it is told.
  pub handle_upload-IsAccounted :
      (name : String) (args : List (String × Json)) (meta : Meta) (st : State S A)
      → IsAccounted name
          (lacks_any name (post_of args))
          (policy_for codec os pg tools (argument "work_dir" args) meta)
          st
          (handle_upload codec os pg svc tools name args meta st)
  unfolding handle_upload no_target no_thread error_result text_result
  handle_upload-IsAccounted name args meta st =
      let post = post_of args in
      elim (Bool-cases (lacks_target post)) [
        | inl e ↦ rw e (lacks refl refl refl)
        | inr e ↦ rw e (elim (Bool-cases (lacks_thread name post)) [
          | inl f ↦ rw f (lacks refl refl refl)
          | inr f ↦ rw f (
              upload_within-IsAccounted name post _ st
                (λ refusal h. is_error-policy_for codec os pg tools _ meta refusal h))
        ])
      ]
