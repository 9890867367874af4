-- ===== src/Tools/Download/Audited.antt =====
-- Every download call that has a file id and a policy is in the audit log.
use slack_mcp_extender.Base.{String, ◌≡◌, refl, true, false, List, inl, inr, Bool-cases, ◌==◌}
use slack_mcp_extender.Base.Result.{Result, ok, err}
use slack_mcp_extender.Base.Int.{ℤ}
use slack_mcp_extender.Json.{Json, Codec}
use slack_mcp_extender.Workdir.{Pathguard, Meta}
use slack_mcp_extender.Containment.Types.{Violation, Policy, Os}
use slack_mcp_extender.Containment.Download.{resolve_new_file}
use slack_mcp_extender.Transfer.Types.{
  Services, FileInfo, TransferError, slack_error, too_large, failed,
}
use slack_mcp_extender.Tools.Replies.{ToolResult, error_result, text_result}
use slack_mcp_extender.Tools.Handlers.{InjectedTools, State, policy_for, tool_file_download}
use slack_mcp_extender.Tools.Handlers.Policies.{is_error-policy_for}
use slack_mcp_extender.Tools.Handlers.Audit.{
  IsAccounted, lacks, no_directory, recorded, IsRecorded, path_denied-IsRecorded,
  is_error-transfer_failure,
}
use slack_mcp_extender.Tools.Download.{
  Fetch, fetch_of, dest_dir_of, filename_of, over_cap, fetch_failure, report_download, save,
  download_known, download_within, handle_download,
}

module _ {S A : Type 0} (codec : Codec) (svc : Services S A) where
  is_error-fetch_failure :
      (p : Policy) (e : TransferError) → (fetch_failure codec svc p e).is_error ≡ true
  unfolding error_result text_result
  is_error-fetch_failure p (slack_error method reason) = refl
  is_error-fetch_failure p (too_large text) = refl
  is_error-fetch_failure p (failed text) = refl

  report_download-IsRecorded :
      (p : Policy) (fetch : Fetch) (info : FileInfo) (target : String) (r : Result TransferError ℤ)
      (st : State S A)
      → IsRecorded tool_file_download st (report_download codec svc p fetch info target r st)
  unfolding report_download text_result
  report_download-IsRecorded p fetch info target (ok written) st = record {
    entry = _;
    appended = refl;
    of_tool = refl;
    agrees = inl (refl, refl);
  }
  report_download-IsRecorded p fetch info target (err e) st = record {
    entry = _;
    appended = refl;
    of_tool = refl;
    agrees = inr (inr (refl, is_error-fetch_failure p e));
  }

  save-IsRecorded :
      (p : Policy) (fetch : Fetch) (info : FileInfo) (r : Result Violation String) (st : State S A)
      → IsRecorded tool_file_download st (save codec svc p fetch info r st)
  unfolding save
  save-IsRecorded p fetch info (err v) st =
      path_denied-IsRecorded codec svc tool_file_download v "" "" st
  save-IsRecorded p fetch info (ok target) st =
      let out = svc.fetch_to info target p.max_size st.remote in
      let r = report_download-IsRecorded p fetch info target out.0 (record st { remote = out.1 }) in
      record { entry = r.entry; appended = r.appended; of_tool = r.of_tool; agrees = r.agrees }

  module _ (os : Os) (pg : Pathguard) where
    download_known-IsRecorded :
        (dir : String) (p : Policy) (fetch : Fetch) (r : Result TransferError FileInfo)
        (st : State S A)
        → IsRecorded tool_file_download st (download_known codec svc os pg dir p fetch r st)
    unfolding download_known error_result text_result
    download_known-IsRecorded dir p fetch (err e) st = record {
      entry = _;
      appended = refl;
      of_tool = refl;
      agrees = inr (inr (refl, is_error-transfer_failure codec "download_failed" e));
    }
    download_known-IsRecorded dir p fetch (ok info) st = elim (Bool-cases (over_cap p info.size)) [
      | inl e ↦
          rw e
            (record { entry = _; appended = refl; of_tool = refl; agrees = inr (inl (refl, refl)) })
      | inr e ↦ rw e (
          save-IsRecorded p fetch info
            (resolve_new_file os pg p dir (dest_dir_of fetch dir) (filename_of fetch info)) st)
    ]

    download_within-IsAccounted :
        (fetch : Fetch) (policed : Result ToolResult (String × Policy)) (st : State S A)
        → ((refusal : ToolResult) → policed ≡ err refusal → refusal.is_error ≡ true)
        → IsAccounted tool_file_download false policed st
            (download_within codec svc os pg fetch policed st)
    unfolding download_within
    download_within-IsAccounted fetch (err refusal) st h =
        no_directory refusal refl refl (h refusal refl) refl
    download_within-IsAccounted fetch (ok (dir, p)) st h =
        let out = svc.info fetch.file_id st.remote in
        let r = download_known-IsRecorded dir p fetch out.0 (record st { remote = out.1 }) in
        recorded dir p refl refl (record {
          entry = r.entry;
          appended = r.appended;
          of_tool = r.of_tool;
          agrees = r.agrees;
        })

    -- A download call without a file id, or whose work directory is refused, is told an error and
    -- changes nothing; any other adds one entry for its tool whose outcome is the one it is told.
    pub handle_download-IsAccounted :
        (tools : InjectedTools) (args : List (String × Json)) (meta : Meta) (st : State S A)
        → let fetch = fetch_of args in
          IsAccounted tool_file_download
            (fetch.file_id == "")
            (policy_for codec os pg tools fetch.work_dir meta)
            st
            (handle_download codec svc os pg tools args meta st)
    unfolding handle_download error_result text_result
    handle_download-IsAccounted tools args meta st =
        let fetch = fetch_of args in
        elim (Bool-cases (fetch.file_id == "")) [
          | inl e ↦ rw e (lacks refl refl refl)
          | inr e ↦ rw e (
              download_within-IsAccounted fetch _ st
                (λ refusal h. is_error-policy_for codec os pg tools _ meta refusal h))
        ]
