-- ===== src/Tools/Download.antt =====
-- `handleDownload`: the tool that saves a Slack file.
pub mod Confined
pub mod Audited
use slack_mcp_extender.Base.{String, Bool, true, false, ◌&&◌, List, [], ◌∷◌, if◌then◌else◌, ◌==◌}
use slack_mcp_extender.Base.Int.{ℤ, pos, ltb_ℤ}
use slack_mcp_extender.Base.Result.{Result, ok, err}
use slack_mcp_extender.Json.{Json, bool, int, str, Codec}
use slack_mcp_extender.Workdir.{Pathguard, Meta}
use slack_mcp_extender.Containment.Types.{Violation, Policy, Os}
use slack_mcp_extender.Containment.Download.{resolve_new_file}
use slack_mcp_extender.Transfer.Types.{
  Services, FileInfo, TransferError, slack_error, too_large, failed, error_text,
}
use slack_mcp_extender.Tools.Replies.{ToolResult, text_result, error_result}
use slack_mcp_extender.Tools.Handlers.{
  InjectedTools, State, argument, no_entry, audit, policy_for, path_denied, transfer_failure,
  tool_file_download,
}

pub record Fetch : Type 0 where
  pub file_id : String
  pub dest_dir : String
  pub work_dir : String
  pub filename : String

abbrev pub fetch_of : List (String × Json) → Fetch
fetch_of args = record {
  file_id = argument "file_id" args;
  dest_dir = argument "dest_dir" args;
  work_dir = argument "work_dir" args;
  filename = argument "filename" args;
}

-- The defaults: the work directory itself, and Slack's name for the file.
abbrev pub dest_dir_of : Fetch → String → String
dest_dir_of fetch dir = if fetch.dest_dir == "" then dir else fetch.dest_dir

abbrev pub filename_of : Fetch → FileInfo → String
filename_of fetch info = if fetch.filename == "" then info.name else fetch.filename

-- `cap > 0 && info.Size > cap`
abbrev pub over_cap : Policy → ℤ → Bool
over_cap p size = ltb_ℤ (pos 0) p.max_size && ltb_ℤ p.max_size size

module _ {S A : Type 0} (codec : Codec) (svc : Services S A) where
  abbrev pub fetch_failure : Policy → TransferError → ToolResult
  fetch_failure p (too_large text) =
      error_result codec "file_too_large" text (("cap", int p.max_size) ∷ [])
  fetch_failure p (failed text) = error_result codec "download_failed" text []
  fetch_failure p (slack_error method reason) =
      error_result codec "download_failed" (error_text (slack_error method reason)) []

  abbrev download_payload : Fetch → FileInfo → String → ℤ → List (String × Json)
  download_payload fetch info target written =
      ("file_id", str fetch.file_id)
      ∷ ("filename", str (filename_of fetch info))
      ∷ ("ok", bool true)
      ∷ ("path", str target)
      ∷ ("size", int written)
      ∷ []

  unfoldable pub report_download :
      Policy
      → Fetch
      → FileInfo
      → String
      → Result TransferError ℤ
      → State S A
      → ToolResult × State S A
  unfolding audit
  report_download p fetch info target (err e) st = (
    fetch_failure p e,
    audit svc
        (record no_entry {
          tool = tool_file_download;
          path = target;
          file_id = fetch.file_id;
          outcome = "error";
          error = error_text e;
        })
        st,
  )
  report_download p fetch info target (ok written) st = (
    text_result codec false (download_payload fetch info target written),
    audit svc
        (record no_entry {
          tool = tool_file_download;
          path = target;
          size = written;
          file_id = fetch.file_id;
          outcome = "ok";
        })
        st,
  )

  unfoldable pub save :
      Policy → Fetch → FileInfo → Result Violation String → State S A → ToolResult × State S A
  unfolding report_download path_denied
  save p fetch info (err v) st = path_denied codec svc tool_file_download v "" "" st
  save p fetch info (ok target) st =
      let (written, remote') = svc.fetch_to info target p.max_size st.remote in
      report_download p fetch info target written (record st { remote = remote' })

  module _ (os : Os) (pg : Pathguard) where
    -- With the metadata at hand: the declared size, containment, and the transfer.
    unfoldable pub download_known :
        String → Policy → Fetch → Result TransferError FileInfo → State S A → ToolResult × State S A
    unfolding save
    download_known dir p fetch (err e) st = (
      transfer_failure codec "download_failed" e,
      audit svc
          (record no_entry {
            tool = tool_file_download;
            file_id = fetch.file_id;
            outcome = "error";
            error = error_text e;
          })
          st,
    )
    download_known dir p fetch (ok info) st =
        if over_cap p info.size
        then (
          error_result codec "file_too_large" "file exceeds the configured size cap"
              (("cap", int p.max_size) ∷ ("size", int info.size) ∷ []),
          audit svc
              (record no_entry {
                tool = tool_file_download;
                size = info.size;
                file_id = fetch.file_id;
                outcome = "denied";
                error = "file_too_large";
              })
              st,
        )
        else save p fetch info
            (resolve_new_file os pg p dir (dest_dir_of fetch dir) (filename_of fetch info)) st

    unfoldable pub download_within :
        Fetch → Result ToolResult (String × Policy) → State S A → ToolResult × State S A
    unfolding download_known
    download_within fetch (err refusal) st = (refusal, st)
    download_within fetch (ok (dir, p)) st =
        let (info, remote') = svc.info fetch.file_id st.remote in
        download_known dir p fetch info (record st { remote = remote' })

    unfoldable pub handle_download :
        InjectedTools → List (String × Json) → Meta → State S A → ToolResult × State S A
    unfolding download_within policy_for
    handle_download tools args meta st =
        let fetch = fetch_of args in
        if fetch.file_id == ""
        then (error_result codec "invalid_arguments" "file_id is required" [], st)
        else download_within fetch (policy_for codec os pg tools fetch.work_dir meta) st
