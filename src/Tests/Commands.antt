-- ===== src/Tests/Commands.antt =====
-- Command lines.
use slack_mcp_extender.Base.{String, ◌≡◌, refl, false, none, some, [], ◌∷◌, eq_iff, arith}
use slack_mcp_extender.Base.Int.{pos}
use slack_mcp_extender.Base.Result.{ok, err}
use slack_mcp_extender.Filepath.{dir, base, join}
use slack_mcp_extender.Config.Validate.{validate}
use slack_mcp_extender.Config.Load.{trim_suffix, extension}
use slack_mcp_extender.Transport.Tokenfile.{StoredTokens, StateDir, Disk}
use slack_mcp_extender.App.Commands.{Shell, config_outcome, log_in, command_of}
use slack_mcp_extender.App.Commands.Shown.{with_literal, config_outcome-hides}
use slack_mcp_extender.App.Mcp.{built_of, start_mcp}
use slack_mcp_extender.App.Mcp.Guarded.{IsGuarded, start_mcp-IsGuarded}
use slack_mcp_extender.Tests.Settings.{system, loaded}

abbrev shell : Shell
shell = record {
  parse_flags = λ args. ok "/home/u/team.json";
  exists = λ path. false;
  marshal = λ c. ok c.oauth.client_secret;
}

abbrev stored : StoredTokens
stored = record { access_token = "t"; refresh_token = ""; token_type = "user"; expires_at = pos 0 }

abbrev disk : Disk
disk = record {
  encode = λ tokens. err "read only";
  decode = λ text. ok stored;
  missing = "no such file or directory";
  read_error = none;
  mkdir_error = none;
  write_error = none;
  rename_error = none;
}

abbrev dirs : String → StateDir
dirs path = record { stored = some "{}"; temporary = none }

logs_in : command_of ("login" ∷ "--config" ∷ "team" ∷ []) ≡ log_in ("--config" ∷ "team" ∷ [])
unfolding command_of
logs_in = refl

config_outcome-hides_example :
    config_outcome system shell "show" (with_literal loaded "a")
    ≡ config_outcome system shell "show" (with_literal loaded "b")
config_outcome-hides_example =
    config_outcome-hides system shell "show" loaded "a" "b" (λ e. ground (arith, eq_iff "a" ""))
      (λ e. ground (arith, eq_iff "b" ""))

starts :
    start_mcp system disk shell dirs []
    ≡ ok (
        built_of system disk loaded
          (record { tokens = stored; dir = dirs loaded.state_dir; warned = [] }))
unfolding start_mcp validate dir base join trim_suffix extension
starts = refl

start_mcp-IsGuarded_example : IsGuarded system disk dirs shell [] (
    built_of system disk loaded
      (record { tokens = stored; dir = dirs loaded.state_dir; warned = [] }))
start_mcp-IsGuarded_example = start_mcp-IsGuarded system disk dirs shell [] _ starts
