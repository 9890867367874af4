-- ===== src/Tests/Tools.antt =====
-- The injected tools on the small disk, with a Slack that records what it is asked.
use slack_mcp_extender.Base.{String, ◌≡◌, refl, false, none, List, [], ◌∷◌, ◌++◌, ◌⊎◌}
use slack_mcp_extender.Base.Int.{pos}
use slack_mcp_extender.Base.Result.{ok}
use slack_mcp_extender.Json.{Json, str, Codec, lookup, text_of}
use slack_mcp_extender.Workdir
use slack_mcp_extender.Transfer.Types.{Services, FileInfo, AuditEntry}
use slack_mcp_extender.Tools.Replies.{violation_text}
use slack_mcp_extender.Tools.Handlers.{InjectedTools, State, argument, policy_for}
use slack_mcp_extender.Tools.Handlers.Audit.{IsAccounted}
use slack_mcp_extender.Tools.Upload.{handle_upload, post_of}
use slack_mcp_extender.Tools.Upload.Confined.{IsSent, handle_upload-IsSent}
use slack_mcp_extender.Tools.Download.{handle_download, fetch_of}
use slack_mcp_extender.Tools.Download.Confined.{IsSaved, handle_download-IsSaved}
use slack_mcp_extender.Tools.Dispatch.{handle}
use slack_mcp_extender.Tools.Dispatch.Audited.{lacks_arguments, handle-IsAccounted}
use slack_mcp_extender.Tests.World.{disk, guard}
use slack_mcp_extender.Tests.Containment.{containment, disk-KeepsAbsolute}

-- A codec that writes every value alike; the runs below do not read what it writes.
abbrev pub codec : Codec
codec = record {
  unmarshal = λ text. none;
  marshal = λ value. "{}";
  quote = λ text. text;
  decimal = λ number. "0";
}

abbrev slack_file : FileInfo
slack_file = record {
  id = "F1";
  name = "../../etc/report.pdf";
  size = pos 7;
  download_url = "https://files.slack.com/F1";
}

-- The state is the list of the paths and ids asked for.
abbrev slack : Services (List String) (List AuditEntry)
slack = record {
  upload = λ request asked. (
    ok (record {
      file_id = "F2";
      filename = request.filename;
      size = pos 5;
      channel_id = request.channel_id;
      thread_ts = request.thread_ts;
    }),
    asked ++ (request.path ∷ []),
  );
  info = λ id asked. (ok slack_file, asked ++ (id ∷ []));
  fetch_to = λ info target cap asked. (ok (pos 7), asked ++ (target ∷ []));
  append = λ entry entries. (none, entries ++ (entry ∷ []));
}

abbrev pub tools : InjectedTools
tools = record { allow_hidden = false; max_file_size = pos 100; server_dirs = [] }

abbrev start : State (List String) (List AuditEntry)
start = record { remote = []; file = []; audited = []; logged = [] }

abbrev pub post_args : List (String × Json)
post_args =
    ("channel_id", str "C1")
    ∷ ("file", str "a.txt")
    ∷ ("work_dir", str "/w")
    ∷ ("thread_ts", str "17.5")
    ∷ []

abbrev fetch_args : List (String × Json)
fetch_args = ("file_id", str "F1") ∷ ("work_dir", str "/w") ∷ []

tool_calls : Unit {0}
unfolding containment handle Workdir.resolve lookup text_of violation_text
tool_calls = tt

upload_asks :
    (handle codec disk guard slack tools "ext_file_upload" post_args [] start).1.remote
    ≡ "/w/a.txt" ∷ []
unfolding tool_calls
upload_asks = refl

download_asks :
    (handle codec disk guard slack tools "ext_file_download" fetch_args [] start).1.remote
    ≡ "F1" ∷ "/w/report.pdf" ∷ []
unfolding tool_calls
download_asks = refl

handle_upload-IsSent_example :
    let out = handle_upload codec disk guard slack tools "ext_file_upload" post_args [] start in
    (out.1.remote ≡ [])
    ⊎ IsSent codec disk guard slack tools "ext_file_upload" (post_of post_args) [] [] out.1.remote
handle_upload-IsSent_example =
    handle_upload-IsSent codec disk guard slack tools disk-KeepsAbsolute "ext_file_upload" post_args
      [] start

handle_download-IsSaved_example :
    let after = (handle_download codec slack disk guard tools fetch_args [] start).1.remote in
    (after ≡ [])
    ⊎ (after ≡ (slack.info (fetch_of fetch_args).file_id []).1)
    ⊎ IsSaved codec slack disk guard tools (fetch_of fetch_args) [] [] after
handle_download-IsSaved_example =
    handle_download-IsSaved codec slack disk guard disk-KeepsAbsolute tools fetch_args [] start

handle-IsAccounted_example :
    IsAccounted "ext_file_upload"
      (lacks_arguments "ext_file_upload" post_args)
      (policy_for codec disk guard tools (argument "work_dir" post_args) [])
      start
      (handle codec disk guard slack tools "ext_file_upload" post_args [] start)
handle-IsAccounted_example =
    handle-IsAccounted codec disk guard slack tools "ext_file_upload" post_args [] start
