-- ===== src/Config/Load.antt =====
-- `applyDefaults`, `Load` and `ServerOwnedDirs`.
pub mod Usable
use slack_mcp_extender.Base.{
  ℕ, String, code, ◌<>◌, Bool, true, false, ◌&&◌, ◌||◌, not, List, [], ◌∷◌, ◌++◌, if◌then◌else◌,
  ◌==◌, eqb,
}
use Prim.Native.Nat.{◌%◌}
use Prim.Native.String.{[], ◌∷◌}
use slack_mcp_extender.Base.Int.{ℤ, pos, negsuc}
use slack_mcp_extender.Base.Result.{Result, err, ok, guard, ◌>>◌, ◌>>=◌}
use slack_mcp_extender.Filepath.{base, dir, join}
use slack_mcp_extender.Config.Types.{OAuth, Config, System}
use slack_mcp_extender.Config.Validate.{validate}

abbrev pub default_max_file_size : ℤ
default_max_file_size = pos 52428800

abbrev pub default_timeout_ms : ℤ
default_timeout_ms = pos 120000

abbrev pub default_upstream_url : String
default_upstream_url = "https://mcp.slack.com/mcp"

-- `filepath.Ext`: from the last dot of the last element on.
abbrev extension_after : String → String → String
extension_after [] found = found
extension_after (c ∷ s) found =
    let here = extension_after s (c ∷ s) in
    let none_yet = extension_after s "" in
    let later = extension_after s found in
    if eqb (code c) b'.' then here else (if eqb (code c) b'/' then none_yet else later)

unfoldable pub extension : String → String
extension path = extension_after path ""

-- `strings.TrimSuffix`
unfoldable pub trim_suffix : String → String → String
trim_suffix [] suffix = []
trim_suffix (c ∷ s) suffix =
    let rest = trim_suffix s suffix in if (c ∷ s) == suffix then [] else c ∷ rest

abbrev pub or_default_number : ℤ → ℤ → ℤ
or_default_number (pos n) default = if eqb n 0 then default else pos n
or_default_number (negsuc n) default = negsuc n

unfoldable pub default_state_dir : Config → String
default_state_dir c =
    if c.state_dir == "" && not (c.path == "")
    then join (dir c.path) (trim_suffix (base c.path) (extension c.path) <> ".state")
    else c.state_dir

unfoldable pub apply_defaults : Config → Config
unfolding default_state_dir
apply_defaults c = record c {
  upstream_url = if c.upstream_url == "" then default_upstream_url else c.upstream_url;
  max_file_size = or_default_number c.max_file_size default_max_file_size;
  timeout_ms = or_default_number c.timeout_ms default_timeout_ms;
  oauth = record c.oauth {
    callback_scheme = if c.oauth.callback_scheme == "" then "https" else c.oauth.callback_scheme;
  };
  state_dir = default_state_dir c;
}

module _ (sys : System) where
  -- An error is wrapped with the path.
  abbrev pub wrapped {ℓ} : {V : Type ℓ} → String → Result String V → Result String V
  wrapped path (err e) = err ("config " <> (sys.quote path <> (": " <> e)))
  wrapped path (ok v) = ok v

  -- The bits of `0o077` are those below 64.
  abbrev pub is_private : ℕ → Bool
  is_private mode = sys.windows || eqb (mode % 64) 0

  abbrev pub validated : Config → Result String (Unit {0}) → Result String Config
  validated c (err e) = err e
  validated c (ok _) = ok c

  unfoldable pub load : String → Result String Config
  unfolding apply_defaults
  load path = do
    mode ← wrapped path (sys.permissions path)
    guard (is_private mode) (
        "config "
        <> (sys.quote path
            <> (" is group/world accessible (mode "
                <> (sys.octal mode <> ("); run: chmod 600 " <> path)))))
    text ← wrapped path (sys.open_file path)
    decoded ← wrapped path (sys.decode text)
    guard (not decoded.1) ("config " <> (sys.quote path <> ": trailing data after config object"))
    place ← wrapped path (sys.abs path)
    let c = apply_defaults (record decoded.0 { path = place })
    wrapped path (validated c (validate sys c))

  -- `filepath.Abs`, or the path as it is where that fails.
  abbrev made_absolute : String → Result String String → String
  made_absolute d (ok place) = place
  made_absolute d (err e) = d

  abbrev added : String → List String
  added d = made_absolute d (sys.abs d) ∷ []

  abbrev directory_of : Result String String → List String
  directory_of (ok place) = dir place ∷ []
  directory_of (err e) = []

  unfoldable pub default_config_dir : Result String String
  default_config_dir = do home ← sys.home; ok (join (join home ".config") "slack-mcp-extender")

  abbrev added_default : Result String String → List String
  added_default (err e) = []
  added_default (ok d) = if d == "" then [] else added d

  unfoldable pub server_owned_dirs : Config → List String
  unfolding default_config_dir
  server_owned_dirs c =
      (if c.state_dir == "" then [] else added c.state_dir)
      ++ ((if c.path == "" then [] else directory_of (sys.abs c.path))
          ++ added_default default_config_dir)
