-- ===== src/Tools/Upload/Confined.antt =====
-- What an upload call can send.
use slack_mcp_extender.Base.{
  String, ◌≡◌, refl, ap, ◌∙◌, true, false, List, ◌⊎◌, inl, inr, Bool-cases,
}
use slack_mcp_extender.Base.Result.{Result, ok, err}
use slack_mcp_extender.Json.{Json, Codec}
use slack_mcp_extender.Workdir.{Pathguard, Meta}
use slack_mcp_extender.Workdir
use slack_mcp_extender.Containment.Types.{Violation, Policy, Os, file_requires_work_dir}
use slack_mcp_extender.Containment.Policy.{assemble}
use slack_mcp_extender.Containment.Policy.Canonical.{KeepsAbsolute}
use slack_mcp_extender.Containment.Upload.{resolve}
use slack_mcp_extender.Containment.Upload.Confined.{IsSendable, resolve-IsSendable}
use slack_mcp_extender.Transfer.Types.{Services, TransferError, UploadResult}
use slack_mcp_extender.Tools.Replies.{ToolResult, error_result, text_result}
use slack_mcp_extender.Tools.Handlers.{InjectedTools, State, policy_for, path_denied}
use slack_mcp_extender.Tools.Handlers.Policies.{IsPolicyFor, policy_for-IsPolicyFor}
use slack_mcp_extender.Tools.Upload.{
  Post, post_of, request_of, report_upload, send, upload_within, handle_upload, lacks_target,
  no_target, no_thread, lacks_thread, no_target, no_thread,
}

module _ {S A : Type 0} (codec : Codec) (os : Os) (pg : Pathguard) (svc : Services S A)
    (tools : InjectedTools) where
  -- One request was made, for a file that may be sent under the policy of the named directory.
  pub record IsSent (name : String) (post : Post) (meta : Meta) (before after : S) : Type 0 where
    pub dir : String
    pub p : Policy
    pub raw : String
    pub canonical : String
    pub accepted : Workdir.resolve pg post.work_dir meta tools.server_dirs ≡ ok dir
    pub policy : IsPolicyFor os tools dir p
    pub assembled : assemble p dir post.file (file_requires_work_dir post.file) ≡ ok raw
    pub sendable : IsSendable os pg p raw canonical
    pub requested : after ≡ (svc.upload (request_of name post canonical) before).1

  remote-report_upload :
      (name : String) (post : Post) (canonical : String) (r : Result TransferError UploadResult)
      (st : State S A)
      → (report_upload codec svc name post canonical r st).1.remote ≡ st.remote
  unfolding report_upload
  remote-report_upload name post canonical (ok result) st = refl
  remote-report_upload name post canonical (err e) st = refl

  remote-path_denied :
      (name : String) (v : Violation) (channel_id thread_ts : String) (st : State S A)
      → (path_denied codec svc name v channel_id thread_ts st).1.remote ≡ st.remote
  unfolding path_denied
  remote-path_denied name v channel_id thread_ts st = refl

  remote-send :
      (name : String) (post : Post) (r : Result Violation String) (st : State S A)
      → ((send codec svc name post r st).1.remote ≡ st.remote)
        ⊎ ((canonical : String) × (r ≡ ok canonical)
            × ((send codec svc name post r st).1.remote
                ≡ (svc.upload (request_of name post canonical) st.remote).1))
  unfolding send
  remote-send name post (err v) st = inl refl
  remote-send name post (ok canonical) st =
      inr (canonical, refl, remote-report_upload name post canonical _ _)

  remote-upload_within :
      (name : String) (post : Post) (r : Result ToolResult (String × Policy)) (st : State S A)
      → ((upload_within codec svc os pg name post r st).1.remote ≡ st.remote)
        ⊎ ((dir : String) × (p : Policy) × (canonical : String) × (r ≡ ok (dir, p))
            × (resolve os pg p dir post.file ≡ ok canonical)
            × ((upload_within codec svc os pg name post r st).1.remote
                ≡ (svc.upload (request_of name post canonical) st.remote).1))
  unfolding upload_within
  remote-upload_within name post (err refusal) st = inl refl
  remote-upload_within name post (ok (dir, p)) st =
      elim (remote-send name post (resolve os pg p dir post.file) st) [
        | inl same ↦ inl same
        | inr (canonical, e, sent) ↦ inr (dir, p, canonical, refl, e, sent)
      ]

  -- A call is refused for its arguments, or goes on with the policy of its work directory.
  handle_upload-cases :
      (name : String) (args : List (String × Json)) (meta : Meta) (st : State S A)
      → let post = post_of args in
        let out = handle_upload codec os pg svc tools name args meta st in
        ((refusal : ToolResult) × (refusal.is_error ≡ true) × (out ≡ (refusal, st)))
        ⊎ ((lacks_target post ≡ false)
            × (lacks_thread name post ≡ false)
            × (out
                ≡ upload_within codec svc os pg name post
                    (policy_for codec os pg tools post.work_dir meta)
                    st))
  unfolding handle_upload error_result text_result
  handle_upload-cases name args meta st =
      let post = post_of args in
      elim (Bool-cases (lacks_target post)) [
        | inl e ↦ inl (no_target codec, refl, rw e refl)
        | inr e ↦ elim (Bool-cases (lacks_thread name post)) [
          | inl f ↦ inl (no_thread codec, refl, rw (e, f) refl)
          | inr f ↦ inr (e, f, rw (e, f) refl)
        ]
      ]

  sent :
      (name : String) (post : Post) (meta : Meta) (before after : S) (dir canonical : String)
      (p : Policy)
      → KeepsAbsolute os
      → policy_for codec os pg tools post.work_dir meta ≡ ok (dir, p)
      → resolve os pg p dir post.file ≡ ok canonical
      → after ≡ (svc.upload (request_of name post canonical) before).1
      → IsSent name post meta before after
  sent name post meta before after dir canonical p keeps policed resolved requested =
      let (accepted, policy) =
        policy_for-IsPolicyFor codec os pg tools post.work_dir meta dir p keeps policed in
      let (raw, assembled, sendable) =
        resolve-IsSendable os pg p dir post.file canonical policy.absolute resolved in
      record {
        dir = dir;
        p = p;
        raw = raw;
        canonical = canonical;
        accepted = accepted;
        policy = policy;
        assembled = assembled;
        sendable = sendable;
        requested = requested;
      }

  -- Whatever the arguments, an upload call leaves the outside world alone, or makes one request, for
  -- a file that may be sent under the policy whose only root is the work directory that pathguard
  -- accepted for the call.
  pub handle_upload-IsSent :
      KeepsAbsolute os
      → (name : String) (args : List (String × Json)) (meta : Meta) (st : State S A)
      → let out = handle_upload codec os pg svc tools name args meta st in
        (out.1.remote ≡ st.remote) ⊎ IsSent name (post_of args) meta st.remote out.1.remote
  handle_upload-IsSent keeps name args meta st =
      let post = post_of args in
      let policed = policy_for codec os pg tools post.work_dir meta in
      elim (handle_upload-cases name args meta st) [
        | inl (refusal, _, e) ↦ inl (ap (λ o. o.1.remote) e)
        | inr (_, _, e) ↦ elim (remote-upload_within name post policed st) [
          | inl same ↦ inl (ap (λ o. o.1.remote) e ∙ same)
          | inr (dir, p, canonical, policed_ok, resolved, requested) ↦ inr (
              sent name post meta st.remote _ dir canonical p keeps policed_ok resolved
                (ap (λ o. o.1.remote) e ∙ requested))
        ]
      ]
