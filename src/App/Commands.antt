-- ===== src/App/Commands.antt =====
-- internal/app/app.go and commands.go: the dispatch, the flag, `config` and `login`.
pub mod Shown
use slack_mcp_extender.Base.{
  ℕ, String, ◌<>◌, Bool, ◌||◌, not, Option, none, some, List, [], ◌∷◌, ◌++◌, map, if◌then◌else◌,
  ◌==◌,
}
use slack_mcp_extender.Base.Result.{Result, err, ok, guard, wrapped, ◌>>=◌, ◌>>◌}
use slack_mcp_extender.Config.Types.{OAuth, Config, System}
use slack_mcp_extender.Config.Validate.{warnings, redacted}
use slack_mcp_extender.Config.Load.{load}
use slack_mcp_extender.Config.Lookup.{resolve_config_arg}
use slack_mcp_extender.Transport.Tokenfile.{StateDir, Disk}
use slack_mcp_extender.Transport.Tokens.{Endpoint}
use slack_mcp_extender.Oauth.Login.{Browser, login}

-- The exit code, and the lines on the standard output and the standard error.
pub record Outcome : Type 0 where
  pub exit_code : ℕ
  pub out : List String
  pub errors : List String

abbrev pub failure : String → Outcome
failure e = record { exit_code = 2; out = []; errors = e ∷ [] }

abbrev pub success : List String → Outcome
success out = record { exit_code = 0; out = out; errors = [] }

-- The package flag on the arguments, with an error that it has printed; where `os.Stat` gives no
-- error; and encoding/json on a configuration.
pub record Shell : Type 0 where
  pub parse_flags : List String → Result String String
  pub exists : String → Bool
  pub marshal : Config → Result String String

module _ (sys : System) (shell : Shell) where
  unfoldable pub parse_config_flag : String → List String → Result String String
  unfolding resolve_config_arg
  parse_config_flag name args = do
    given ← shell.parse_flags args
    guard (not (given == "")) (name <> ": --config is required (one config per Slack workspace)")
    wrapped (name <> ": ") (resolve_config_arg sys shell.exists given)

  abbrev pub configured : String → List String → Result String Config
  configured name args = do path ← parse_config_flag name args; load sys path

  abbrev pub shown : Result String String → Outcome
  shown (err e) = failure e
  shown (ok text) = success (text ∷ [])

  -- `show`, or else `validate`.
  unfoldable pub config_outcome : String → Config → Outcome
  unfolding redacted warnings
  config_outcome sub c =
      if sub == "show"
      then shown (shell.marshal (redacted c))
      else success ((c.path <> ": OK") ∷ map (λ w. "warning: " <> w) (warnings c))

  abbrev pub after_configured : String → Result String Config → Outcome
  after_configured sub (err e) = failure e
  after_configured sub (ok c) = config_outcome sub c

  unfoldable pub run_config : List String → Outcome
  unfolding parse_config_flag config_outcome load
  run_config [] = failure "config: subcommand required (show or validate)"
  run_config (sub ∷ rest) =
      if sub == "show" || sub == "validate"
      then after_configured sub (configured ("config " <> sub) rest)
      else failure ("config: unknown subcommand " <> (sys.quote sub <> " (want show or validate)"))

  -- The progress that the login prints is left out.
  abbrev pub logged_in : Result String (Unit {0}) × StateDir → Outcome × StateDir
  logged_in (err e, dir) = (failure e, dir)
  logged_in (ok _, dir) = (success [], dir)

  module _ (browser : Browser) (endpoint : Endpoint) (disk : Disk) (now : ℕ) where
    abbrev pub with_config : Result String Config → StateDir → Outcome × StateDir
    with_config (err e) dir = (failure e, dir)
    with_config (ok c) dir = logged_in (login sys browser endpoint disk now c.oauth dir)

    -- `dir` is the state directory of the configuration.
    unfoldable pub run_login : List String → StateDir → Outcome × StateDir
    unfolding parse_config_flag load login
    run_login args dir = with_config (configured "login" args) dir

-- What a command line asks for.
pub data Command : Type 0 where
  mcp : List String → Command
  init : Command
  log_in : List String → Command
  config : List String → Command
  version : Command
  help : Command
  missing : Command
  unknown : String → Command

unfoldable pub command_of : List String → Command
command_of [] = missing
command_of (cmd ∷ rest) =
    if cmd == "mcp"
    then mcp rest
    else (if cmd == "init"
        then init
        else (if cmd == "login"
            then log_in rest
            else (if cmd == "config"
                then config rest
                else (if cmd == "version" || cmd == "--version" || cmd == "-v"
                    then version
                    else (if cmd == "help" || cmd == "-h" || cmd == "--help"
                        then help
                        else unknown cmd)))))
