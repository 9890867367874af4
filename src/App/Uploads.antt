-- ===== src/App/Uploads.antt =====
-- An upload call with the client that the server runs with: from the arguments of the call to the
-- requests on the network.
use slack_mcp_extender.Base.{
  String, ◌≡◌, refl, sym, ap, ◌∙◌, List, [], ◌++◌, append-nil, ◌⊎◌, inl, inr, All,
}
use slack_mcp_extender.Json.{Json, Codec}
use slack_mcp_extender.Workdir.{Pathguard, Meta}
use slack_mcp_extender.Containment.Types.{Os}
use slack_mcp_extender.Containment.Policy.Canonical.{KeepsAbsolute}
use slack_mcp_extender.Transfer.Io.{Request, Net}
use slack_mcp_extender.Transfer.Web.{Client}
use slack_mcp_extender.Transfer.Fetch.{Answers}
use slack_mcp_extender.Transfer.Audit.{AuditLog}
use slack_mcp_extender.Transfer.Service.{client_services}
use slack_mcp_extender.Transfer.Service.Files.{OnlyFile, upload-OnlyFile}
use slack_mcp_extender.Tools.Handlers.{InjectedTools, State}
use slack_mcp_extender.Tools.Upload.{Post, post_of, request_of, handle_upload}
use slack_mcp_extender.Tools.Upload.Confined.{IsSent, handle_upload-IsSent}

module _ {S : Type 0} (codec : Codec) (os : Os) (pg : Pathguard) (client : Client S)
    (files : Answers) (log : AuditLog) (tools : InjectedTools) where
  -- The requests that a call added carry the bytes of no file, since there are none, or of the one
  -- file that may be sent.
  pub record CarriesSendable (name : String) (post : Post) (meta : Meta) (before after : Net S)
      : Type 0 where
    pub added : List Request
    pub extends : after.requests ≡ before.requests ++ added
    pub carried :
        (added ≡ [])
        ⊎ ((s : IsSent codec os pg
              (client_services client files log)
              tools
              name
              post
              meta
              before
              after)
            × All (OnlyFile s.canonical) added)

  carries :
      (name : String) (post : Post) (meta : Meta) (before after : Net S)
      → (after ≡ before)
        ⊎ IsSent codec os pg (client_services client files log) tools name post meta before after
      → CarriesSendable name post meta before after
  carries name post meta before after (inl same) = record {
    added = [];
    extends = ap (λ n. n.requests) same ∙ sym (append-nil _);
    carried = inl refl;
  }
  carries name post meta before after (inr s) =
      let (added, extends, only) =
        upload-OnlyFile client (request_of name post s.canonical) before in
      record {
        added = added;
        extends = ap (λ n. n.requests) s.requested ∙ extends;
        carried = inr (s, only);
      }

  -- Where symlink resolution keeps absolute paths absolute, whatever the arguments of an upload call
  -- and the answers of the servers, each request that the call adds to the network carries the bytes
  -- of no file, or of the one file that may be sent under the policy whose only root is the work
  -- directory that pathguard accepted for the call.
  pub handle_upload-CarriesSendable :
      KeepsAbsolute os
      → (name : String) (args : List (String × Json)) (meta : Meta)
        (st : State (Net S) (List String))
      → CarriesSendable name
          (post_of args)
          meta
          st.remote
          (handle_upload codec os pg
            (client_services client files log)
            tools
            name
            args
            meta
            st).1.remote
  handle_upload-CarriesSendable keeps name args meta st =
      carries name (post_of args) meta st.remote _ (
        handle_upload-IsSent codec os pg (client_services client files log) tools keeps name args
          meta st)
