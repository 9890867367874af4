-- ===== src/Config/Validate.antt =====
-- `Validate`, `isEnvVarName`, `ResolveClientSecret`, `Warnings` and `Redacted`.
pub mod Valid
use slack_mcp_extender.Base.{
  ℕ, String, code, ◌<>◌, Bool, true, false, ◌&&◌, ◌||◌, not, Option, none, some, List, [], ◌∷◌,
  ◌++◌, any, if◌then◌else◌, ◌==◌, leb, eqb,
}
use Prim.Native.String.{[], ◌∷◌}
use slack_mcp_extender.Base.Int.{ℤ, pos, ltb_ℤ}
use slack_mcp_extender.Base.Result.{Result, err, ok, guard, ◌>>◌}
use slack_mcp_extender.Config.Types.{OAuth, Config, Url, System}

abbrev pub is_letter : ℕ → Bool
is_letter c = eqb c b'_' || (leb b'A' c && leb c b'Z') || (leb b'a' c && leb c b'z')

abbrev pub is_digit : ℕ → Bool
is_digit c = leb b'0' c && leb c b'9'

unfoldable pub all_name_characters : String → Bool
all_name_characters [] = true
all_name_characters (c ∷ s) = (is_letter (code c) || is_digit (code c)) && all_name_characters s

-- A digit may not come first.
unfoldable pub is_env_var_name : String → Bool
unfolding all_name_characters
is_env_var_name [] = false
is_env_var_name (c ∷ s) = is_letter (code c) && all_name_characters s

abbrev pub is_http_url : Option Url → Bool
is_http_url none = false
is_http_url (some url) = (url.scheme == "https" || url.scheme == "http") && not (url.host == "")

abbrev pub is_empty {ℓ} : {A : Type ℓ} → List A → Bool
is_empty [] = true
is_empty (x ∷ xs) = false

-- A test, and the error where it fails; the first that fails ends the validation.
abbrev pub run_checks : List (Bool × String) → Result String (Unit {0})
run_checks [] = ok tt
run_checks ((test, e) ∷ checks) = guard test e >> run_checks checks

unfoldable pub checks : System → Config → List (Bool × String)
unfolding is_env_var_name
checks sys c =
    (
      is_http_url (sys.parse_url c.upstream_url),
      "upstream.url " <> (sys.quote c.upstream_url <> " is not a valid http(s) URL"),
    )
    ∷ (
      not (c.oauth.authorize_url == "" || c.oauth.token_url == "" || c.oauth.client_id == ""),
      "oauth.authorize_url, oauth.token_url, and oauth.client_id are required",
    )
    ∷ (
      c.oauth.client_secret == "" || c.oauth.client_secret_env == "",
      "oauth.client_secret and oauth.client_secret_env are mutually exclusive",
    )
    ∷ (
      c.oauth.client_secret_env == "" || is_env_var_name c.oauth.client_secret_env,
      "oauth.client_secret_env must be the NAME of an environment variable (e.g. SLACK_MCP_EXTENDER_CLIENT_SECRET); if you meant to store the secret value itself, use oauth.client_secret",
    )
    ∷ (not (is_empty c.oauth.scopes), "oauth.scopes must not be empty")
    ∷ (
      c.oauth.callback_scheme == "http" || c.oauth.callback_scheme == "https",
      "oauth.callback_scheme "
          <> (sys.quote c.oauth.callback_scheme <> " must be \"http\" or \"https\""),
    )
    ∷ (
      c.oauth.client_auth_method == ""
          || c.oauth.client_auth_method == "post"
          || c.oauth.client_auth_method == "basic"
          || c.oauth.client_auth_method == "none",
      "oauth.client_auth_method "
          <> (sys.quote c.oauth.client_auth_method <> " must be \"post\", \"basic\", or \"none\""),
    )
    ∷ (
      is_empty c.allowed_roots,
      "allowed_roots was removed in ADR-0003: the containment boundary is now the work_dir "
          <> ("each call names, so uploads come from the directory the caller is working in and downloads land there. "
              <> "Delete the key"),
    )
    ∷ (not (ltb_ℤ c.max_file_size (pos 0)), "max_file_size must not be negative")
    ∷ (not (ltb_ℤ c.timeout_ms (pos 0)), "timeout_ms must not be negative")
    ∷ []

unfoldable pub validate : System → Config → Result String (Unit {0})
unfolding checks
validate sys c = run_checks (checks sys c)

unfoldable pub resolve_client_secret : System → OAuth → String
resolve_client_secret sys o =
    if not (o.client_secret == "")
    then o.client_secret
    else (if not (o.client_secret_env == "") then sys.getenv o.client_secret_env else "")

unfoldable pub warnings : Config → List String
warnings c =
    (if not (any (λ s. s == "files:write") c.oauth.scopes)
      then "oauth.scopes does not include \"files:write\" — the injected upload tools will fail"
        ∷ []
      else [])
    ++ (if not (c.oauth.client_secret == "")
        then "oauth.client_secret is stored literally in the config file — prefer client_secret_env"
          ∷ []
        else [])

-- For display, without a literal secret.
unfoldable pub redacted : Config → Config
redacted c =
    if not (c.oauth.client_secret == "")
    then record c { oauth = record c.oauth { client_secret = "[redacted]" } }
    else c
