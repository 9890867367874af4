-- ===== src/Tools/Download/Confined.antt =====
-- Where a download call can write.
use slack_mcp_extender.Base.{String, ◌≡◌, refl, false, List, arith, ◌⊎◌, inl, inr, Bool-cases, ◌==◌}
use slack_mcp_extender.Base.Result.{Result, ok, err}
use slack_mcp_extender.Base.Int.{ℤ, pos, ◌≤ℤ◌}
use slack_mcp_extender.Json.{Json, Codec}
use slack_mcp_extender.Workdir
use slack_mcp_extender.Workdir.{Pathguard, Meta}
use slack_mcp_extender.Containment.Types.{Violation, Policy, Os, dest_dir_requires_work_dir}
use slack_mcp_extender.Containment.Policy.{assemble}
use slack_mcp_extender.Containment.Policy.Canonical.{KeepsAbsolute}
use slack_mcp_extender.Containment.Download.{resolve_new_file, sanitize_filename}
use slack_mcp_extender.Containment.Download.Confined.{IsCreatable, resolve_new_file-IsCreatable}
use slack_mcp_extender.Transfer.Types.{Services, FileInfo, TransferError}
use slack_mcp_extender.Tools.Replies.{ToolResult}
use slack_mcp_extender.Tools.Handlers.{InjectedTools, State, policy_for}
use slack_mcp_extender.Tools.Handlers.Policies.{IsPolicyFor, policy_for-IsPolicyFor}
use slack_mcp_extender.Tools.Download.{
  Fetch, fetch_of, dest_dir_of, filename_of, over_cap, report_download, save, download_known,
  download_within, handle_download,
}

module _ {S A : Type 0} (codec : Codec) (svc : Services S A) where
  remote-report_download :
      (p : Policy) (fetch : Fetch) (info : FileInfo) (target : String) (r : Result TransferError ℤ)
      (st : State S A)
      → (report_download codec svc p fetch info target r st).1.remote ≡ st.remote
  unfolding report_download
  remote-report_download p fetch info target (ok written) st = refl
  remote-report_download p fetch info target (err e) st = refl

  remote-save :
      (p : Policy) (fetch : Fetch) (info : FileInfo) (r : Result Violation String) (st : State S A)
      → ((save codec svc p fetch info r st).1.remote ≡ st.remote)
        ⊎ ((target : String) × (r ≡ ok target)
            × ((save codec svc p fetch info r st).1.remote
                ≡ (svc.fetch_to info target p.max_size st.remote).1))
  unfolding save
  remote-save p fetch info (err v) st = inl refl
  remote-save p fetch info (ok target) st =
      inr (target, refl, remote-report_download p fetch info target _ _)

  module _ (os : Os) (pg : Pathguard) where
    remote-download_known :
        (dir : String) (p : Policy) (fetch : Fetch) (r : Result TransferError FileInfo)
        (st : State S A)
        → let out = download_known codec svc os pg dir p fetch r st in
          (out.1.remote ≡ st.remote)
          ⊎ ((info : FileInfo) × (target : String) × (r ≡ ok info)
              × (over_cap p info.size ≡ false)
              × (resolve_new_file os pg p dir (dest_dir_of fetch dir) (filename_of fetch info)
                  ≡ ok target)
              × (out.1.remote ≡ (svc.fetch_to info target p.max_size st.remote).1))
    unfolding download_known
    remote-download_known dir p fetch (err e) st = inl refl
    remote-download_known dir p fetch (ok info) st = elim (Bool-cases (over_cap p info.size)) [
      | inl e ↦ inl (rw e refl)
      | inr e ↦
          elim (remote-save p fetch info
            (resolve_new_file os pg p dir (dest_dir_of fetch dir) (filename_of fetch info)) st) [
              | inl same ↦ inl (rw e same)
              | inr (target, resolved, saved) ↦ inr (info, target, refl, e, resolved, rw e saved)
            ]
    ]

    -- One file was fetched, to a path at which a file may be created under the policy of the named
    -- directory, and its declared size is within the cap.
    pub record IsSaved (tools : InjectedTools) (fetch : Fetch) (meta : Meta) (before after : S)
        : Type 0 where
      pub dir : String
      pub p : Policy
      pub info : FileInfo
      pub raw : String
      pub name : String
      pub target : String
      pub accepted : Workdir.resolve pg fetch.work_dir meta tools.server_dirs ≡ ok dir
      pub policy : IsPolicyFor os tools dir p
      pub informed : (svc.info fetch.file_id before).0 ≡ ok info
      pub within_cap : (p.max_size ≤ℤ pos 0) ⊎ (info.size ≤ℤ p.max_size)
      pub assembled :
          assemble p dir
            (dest_dir_of fetch dir)
            (dest_dir_requires_work_dir (dest_dir_of fetch dir))
          ≡ ok raw
      pub sanitized : sanitize_filename (filename_of fetch info) ≡ ok name
      pub creatable : IsCreatable os pg p raw name target
      pub requested :
          after ≡ (svc.fetch_to info target p.max_size (svc.info fetch.file_id before).1).1

    cap_of_over_cap :
        (p : Policy) (size : ℤ)
        → over_cap p size ≡ false
        → (p.max_size ≤ℤ pos 0) ⊎ (size ≤ℤ p.max_size)
    cap_of_over_cap p size h = ground arith

    saved :
        (tools : InjectedTools) (fetch : Fetch) (meta : Meta) (before after : S)
        (dir target : String) (p : Policy) (info : FileInfo)
        → KeepsAbsolute os
        → policy_for codec os pg tools fetch.work_dir meta ≡ ok (dir, p)
        → (svc.info fetch.file_id before).0 ≡ ok info
        → over_cap p info.size ≡ false
        → resolve_new_file os pg p dir (dest_dir_of fetch dir) (filename_of fetch info) ≡ ok target
        → after ≡ (svc.fetch_to info target p.max_size (svc.info fetch.file_id before).1).1
        → IsSaved tools fetch meta before after
    saved tools fetch meta before after dir target p info keeps policed informed small resolved
          requested =
        let (accepted, policy) =
          policy_for-IsPolicyFor codec os pg tools fetch.work_dir meta dir p keeps policed in
        let (raw, name, assembled, sanitized, creatable) =
          resolve_new_file-IsCreatable os pg p dir (dest_dir_of fetch dir) (filename_of fetch info)
            target policy.absolute resolved in
        record {
          dir = dir;
          p = p;
          info = info;
          raw = raw;
          name = name;
          target = target;
          accepted = accepted;
          policy = policy;
          informed = informed;
          within_cap = cap_of_over_cap p info.size small;
          assembled = assembled;
          sanitized = sanitized;
          creatable = creatable;
          requested = requested;
        }

    remote-download_within :
        (tools : InjectedTools) (fetch : Fetch) (meta : Meta)
        (r : Result ToolResult (String × Policy)) (st : State S A)
        → KeepsAbsolute os
        → policy_for codec os pg tools fetch.work_dir meta ≡ r
        → let after = (download_within codec svc os pg fetch r st).1.remote in
          (after ≡ st.remote)
          ⊎ (after ≡ (svc.info fetch.file_id st.remote).1)
          ⊎ IsSaved tools fetch meta st.remote after
    unfolding download_within
    remote-download_within tools fetch meta (err refusal) st keeps policed = inl refl
    remote-download_within tools fetch meta (ok (dir, p)) st keeps policed =
        let out = svc.info fetch.file_id st.remote in
        elim (remote-download_known dir p fetch out.0 (record st { remote = out.1 })) [
          | inl same ↦ inr (inl same)
          | inr (info, target, informed, small, resolved, requested) ↦ inr (
              inr (
                saved tools fetch meta st.remote _ dir target p info keeps policed informed small
                  resolved requested))
        ]

    -- Whatever the arguments and whatever Slack says of the file, a download call leaves the outside
    -- world alone, only asks for the file's metadata, or fetches that file to a path at which a file
    -- may be created under the policy whose only root is the work directory that pathguard accepted.
    pub handle_download-IsSaved :
        KeepsAbsolute os
        → (tools : InjectedTools) (args : List (String × Json)) (meta : Meta) (st : State S A)
        → let after = (handle_download codec svc os pg tools args meta st).1.remote in
          (after ≡ st.remote)
          ⊎ (after ≡ (svc.info (fetch_of args).file_id st.remote).1)
          ⊎ IsSaved tools (fetch_of args) meta st.remote after
    unfolding handle_download
    handle_download-IsSaved keeps tools args meta st =
        let fetch = fetch_of args in
        elim (Bool-cases (fetch.file_id == "")) [
          | inl e ↦ inl (rw e refl)
          | inr e ↦ rw e (
              remote-download_within tools fetch meta
                (policy_for codec os pg tools fetch.work_dir meta) st keeps refl)
        ]
