-- ===== src/App/Init.antt =====
-- internal/app/initcmd.go: the questions of `init`, and the configuration that it writes.
pub mod Asked
pub mod Written
pub mod Loaded
use slack_mcp_extender.Base.{
  ℕ, suc, String, ◌<>◌, Bool, true, false, ◌||◌, ◌&&◌, not, Option, none, some, List, [], ◌∷◌,
  if◌then◌else◌, ◌==◌, leb, has_prefix,
}
use Prim.Native.String.{[], ◌∷◌}
use slack_mcp_extender.Base.Int.{ℤ, pos, negsuc, ltb_ℤ}
use slack_mcp_extender.Base.Result.{Result, err, ok}
use slack_mcp_extender.Base.Action.{Action, lift, next, ◌>>=◌, ◌>>◌}
use slack_mcp_extender.Filepath.{join}
use slack_mcp_extender.Transport.Stream.{trim_space, trim_left, trim_right}
use slack_mcp_extender.Config.Types.{OAuth, Config, System}
use slack_mcp_extender.Config.Load.{
  default_upstream_url, default_max_file_size, default_config_dir, load,
}
use slack_mcp_extender.Config.Lookup.{default_scopes}

-- Why the questions end without a configuration; a loop that is still running is `out_of_fuel`.
pub data Stop : Type 0 where
  out_of_fuel : Stop
  refused : String → Stop

-- The state is the lines of the input that are left.
abbrev pub Dialog : Type 0 → Type 0
Dialog V = Action (List String) Stop V

-- At the end of the input, and for a blank line, the answer is the default.
unfoldable pub ask : String → Dialog String
unfolding trim_left trim_right
ask default [] = (ok default, [])
ask default (line ∷ lines) =
    (ok (if trim_space line == "" then default else trim_space line), lines)

-- The loop that asks until the answer is not empty, with fuel.
unfoldable pub ask_until : ℕ → Dialog String
unfolding ask
ask_until ℕ.zero lines = (err out_of_fuel, lines)
ask_until (suc n) lines =
    let (r, lines') = ask "" lines in
    let more = ask_until n lines' in
    elim r [
      | err e ↦ (err e, lines')
      | ok answer ↦ if answer == "" then more else (ok answer, lines')
    ]

unfoldable pub expand_tilde : String → String → String
unfolding has_prefix join
expand_tilde [] home = []
expand_tilde (c ∷ s) home =
    if (c ∷ s) == "~"
    then home
    else (if has_prefix (c ∷ s) "~/" then join home (after_slash s) else c ∷ s)
  where
    after_slash : String → String
    after_slash [] = []
    after_slash (d ∷ t) = t

-- What `Atoi` reads, where `os.Stat` gives no error, and the errors of encoding/json and the file
-- system.
pub record Terminal : Type 0 where
  pub atoi : String → Option ℤ
  pub exists : String → Bool
  pub marshal_error : Config → Option String
  pub mkdir_error : Option String
  pub write_error : Option String

-- The name of the variable that holds the secret, and the secret itself.
pub record Secret : Type 0 where
  pub variable : String
  pub literal : String

unfoldable pub init_config : String → Secret → ℤ → Config
init_config client_id secret port = record {
  upstream_url = default_upstream_url;
  oauth = record {
    authorize_url = "https://slack.com/oauth/v2_user/authorize";
    token_url = "https://slack.com/api/oauth.v2.user.access";
    client_id = client_id;
    client_secret = secret.literal;
    client_secret_env = secret.variable;
    scopes = default_scopes;
    callback_port = port;
    callback_scheme = "";
    client_auth_method = "";
  };
  allowed_roots = [];
  allow_hidden = false;
  max_file_size = default_max_file_size;
  state_dir = "";
  timeout_ms = pos 0;
  path = "";
}

abbrev pub reported : Result String String → Result Stop String
reported (err e) = err (refused e)
reported (ok v) = ok v

module _ (sys : System) (terminal : Terminal) (fuel : ℕ) where
  abbrev pub in_range : ℤ → Bool
  in_range port = ltb_ℤ (pos 0) port && not (ltb_ℤ (pos 65535) port)

  abbrev pub port_of : String → Option ℤ → Result Stop ℤ
  port_of text none = err (refused ("init: invalid port " <> sys.quote text))
  port_of text (some port) =
      if in_range port then ok port else err (refused ("init: invalid port " <> sys.quote text))

  abbrev pub not_there : String → Result Stop (Unit {0})
  not_there path =
      if terminal.exists path
      then err (
          refused (
            "init: "
            <> (path
                <> " already exists — refusing to overwrite (remove it first, or pick another path)")))
      else ok tt

  abbrev pub ask_secret : String → Dialog Secret
  ask_secret choice =
      if choice == "2"
      then (do literal ← ask_until fuel; lift (ok (record { variable = ""; literal = literal })))
      else (do
        variable ← ask "SLACK_MCP_EXTENDER_CLIENT_SECRET"
        lift (ok (record { variable = variable; literal = "" })))

  unfoldable pub ask_path : Dialog String
  unfolding ask expand_tilde default_config_dir
  ask_path = do
    name ← ask "myworkspace"
    home ← lift (reported sys.home)
    d ← lift (reported (default_config_dir sys))
    named ← ask (join d (name <> ".json"))
    lift (not_there (expand_tilde named home))
    lift (ok (expand_tilde named home))

  unfoldable pub ask_config : Dialog Config
  unfolding ask ask_until init_config
  ask_config = do
    client_id ← ask_until fuel
    choice ← ask "1"
    secret ← ask_secret choice
    text ← ask "7777"
    port ← lift (port_of text (terminal.atoi text))
    lift (ok (init_config client_id secret port))

  -- What is in the file, and the exit code with what is reported.
  pub record Outcome : Type 0 where
    pub written : Option (String × Config)
    pub exit_code : ℕ
    pub errors : List String

  abbrev pub failure : Option (String × Config) → String → Outcome
  failure written e = record { written = written; exit_code = 2; errors = e ∷ [] }

  abbrev pub success : Option (String × Config) → Outcome
  success written = record { written = written; exit_code = 0; errors = [] }

  abbrev pub after_load : String → Config → Result String Config → Outcome
  after_load path c (err e) =
      failure (some (path, c)) ("init: wrote " <> (path <> (" but it fails to load: " <> e)))
  after_load path c (ok loaded) = success (some (path, c))

  abbrev pub after_write : String → Config → Option String → Outcome
  after_write path c none = after_load path c (load sys path)
  after_write path c (some e) = failure none e

  abbrev pub after_mkdir : String → Config → Option String → Outcome
  after_mkdir path c none = after_write path c terminal.write_error
  after_mkdir path c (some e) = failure none e

  abbrev pub after_marshal : String → Config → Option String → Outcome
  after_marshal path c none = after_mkdir path c terminal.mkdir_error
  after_marshal path c (some e) = failure none e

  -- The file is written with mode 0600, and read by `Load`. A write that fails leaves no whole file.
  unfoldable pub write_config : String → Config → Outcome
  unfolding load
  write_config path c = after_marshal path c (terminal.marshal_error c)
