-- ===== src/Transfer/Service.antt =====
-- The client and the audit log as the services of the injected tools.
pub mod Files
pub mod Fetched
use slack_mcp_extender.Base.{String, ◌<>◌, none, some, List, [], ◌∷◌}
use slack_mcp_extender.Base.Int.{ℤ, pos}
use slack_mcp_extender.Base.Result.{Result, err, ok}
use slack_mcp_extender.Transfer.Types.{Services, FileInfo}
use slack_mcp_extender.Transfer.Io.{no_body, Request, Net, Io, lift, ◌>>=◌, ◌>>◌, unless_error}
use slack_mcp_extender.Transfer.Web.{Client, Web}
use slack_mcp_extender.Transfer.Client.{authorize_by, exchange, info}
use slack_mcp_extender.Transfer.Upload.{upload}
use slack_mcp_extender.Transfer.Fetch.{Answers, save_body}
use slack_mcp_extender.Transfer.Audit.{AuditLog, append}

abbrev pub fetch_request : FileInfo → List (String × String) → Request
fetch_request file authorization = record {
  method = "GET";
  url = file.download_url;
  headers = authorization;
  body = no_body;
}

module _ {S : Type 0} (client : Client S) (files : Answers) where
  -- `FetchTo` with the client's token and exchange; what follows the response is that of Fetch.
  unfoldable pub fetch : FileInfo → String → ℤ → Io S ℤ
  unfolding exchange save_body
  fetch file target max_size = do
    lift (
        unless_error (λ e. "build download request: " <> e)
          (client.web.new_request "GET" file.download_url))
    authorization ← authorize_by client (λ e. "obtain token: " <> e) client.tokens
    response ← exchange client (λ e. "download: " <> e) (fetch_request file authorization)
    lift (save_body files target max_size response).0

  abbrev pub client_services : AuditLog → Services (Net S) (List String)
  client_services log = record {
    upload = upload client;
    info = info client;
    fetch_to = fetch;
    append = append log;
  }
