-- ===== src/Transport/Credentials.antt =====
-- internal/transport/clientauth.go, and the requests to a token endpoint that use it.
pub mod Placed
use slack_mcp_extender.Base.{String, Option, none, some, List, [], ◌∷◌, if◌then◌else◌, ◌==◌}
use slack_mcp_extender.Transport.Forms.{Form, set}

-- `ClientAuthConfig`
pub record ClientAuth : Type 0 where
  pub method : String
  pub client_id : String
  pub client_secret : String

-- A POST of a form: its address, the credentials of HTTP Basic authentication if there are any, and
-- the form.
pub record TokenRequest : Type 0 where
  pub url : String
  pub basic : Option (String × String)
  pub form : Form

abbrev pub with_secret : String → Form → Form
with_secret secret form = if secret == "" then form else set "client_secret" secret form

unfoldable pub apply_client_auth : ClientAuth → TokenRequest → TokenRequest
unfolding set
apply_client_auth cfg r =
    if cfg.method == "basic"
    then record r { basic = some (cfg.client_id, cfg.client_secret) }
    else (if cfg.method == "none"
        then record r { form = set "client_id" cfg.client_id r.form }
        else record r {
          form = with_secret cfg.client_secret (set "client_id" cfg.client_id r.form);
        })

abbrev pub refresh_form : String → Form
refresh_form refresh_token = ("grant_type", "refresh_token") ∷ ("refresh_token", refresh_token) ∷ []

unfoldable pub refresh_request : String → ClientAuth → String → TokenRequest
unfolding apply_client_auth
refresh_request url cfg refresh_token =
    apply_client_auth cfg (record { url = url; basic = none; form = refresh_form refresh_token })
