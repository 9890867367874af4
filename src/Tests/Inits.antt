-- ===== src/Tests/Inits.antt =====
-- Dialogs of `init`.
use slack_mcp_extender.Base.{◌≡◌, refl, false, ◌||◌, none, some, [], ◌∷◌, if◌then◌else◌, ◌==◌}
use slack_mcp_extender.Base.Int.{pos}
use slack_mcp_extender.Base.Result.{ok}
use slack_mcp_extender.Base.Yields.{Yields}
use slack_mcp_extender.Transport.Stream.{trim_left, trim_right}
use slack_mcp_extender.Config.Types.{Config, System}
use slack_mcp_extender.Config.Validate.{is_env_var_name, validate}
use slack_mcp_extender.Config.Lookup.{resolve_config_arg}
use slack_mcp_extender.Config.Lookup.Found.{IsFound, resolve_config_arg-IsFound}
use slack_mcp_extender.App.Init.{
  Terminal, Secret, ask_until, init_config, ask_config, expand_tilde, write_config, success,
}
use slack_mcp_extender.App.Init.Asked.{Ends, ask_until-Ends}
use slack_mcp_extender.App.Init.Written.{IsReady, ask_config-IsReady}
use slack_mcp_extender.App.Init.Loaded.{ReadsBack, refusal, write_config-verdict}
use slack_mcp_extender.Tests.Settings.{system}

abbrev terminal : Terminal
terminal = record {
  atoi = λ text. some (pos 7777);
  exists = λ path. path == "/home/u/.config/slack-mcp-extender/team.json";
  marshal_error = λ c. none;
  mkdir_error = none;
  write_error = none;
}

asks_again : ask_until 5 ("" ∷ "  " ∷ " 1.2 " ∷ "1" ∷ []) ≡ (ok "1.2", "1" ∷ [])
unfolding ask_until trim_left trim_right
asks_again = refl

ask_until-Ends_example : Ends ("" ∷ "  " ∷ " 1.2 " ∷ "1" ∷ [])
ask_until-Ends_example = ask_until-Ends ("" ∷ "  " ∷ " 1.2 " ∷ "1" ∷ [])

expands : expand_tilde "~/a.json" "/home/u" ≡ "/home/u/a.json"
unfolding expand_tilde
expands = refl

-- A variable whose name has a hyphen.
abbrev secret : Secret
secret = record { variable = "MY-SECRET"; literal = "" }

abbrev bad : Config
bad = init_config "1.2" secret (pos 7777)

abbrev written_system : System
written_system = record system { decode = λ text. ok (bad, false) }

asks_config : ask_config written_system terminal 5 ("1.2" ∷ "" ∷ "MY-SECRET" ∷ []) ≡ (ok bad, [])
unfolding ask_config trim_left trim_right
asks_config = refl

ask_config-IsReady_example :
    Yields (IsReady written_system terminal 5) (ask_config written_system terminal 5)
ask_config-IsReady_example = ask_config-IsReady written_system terminal 5 refl

bad-ReadsBack : ReadsBack written_system "/c.json" bad
bad-ReadsBack = record {
  mode = refl;
  text = "{}";
  opened = refl;
  decoded = refl;
  place = "/c.json";
  absolute = refl;
}

finds :
    resolve_config_arg system terminal.exists "team"
    ≡ ok "/home/u/.config/slack-mcp-extender/team.json"
unfolding resolve_config_arg
finds = refl

resolve_config_arg-IsFound_example :
    IsFound system terminal.exists "team" (resolve_config_arg system terminal.exists "team")
resolve_config_arg-IsFound_example = resolve_config_arg-IsFound system terminal.exists "team"

-- The file stays, though the commands refuse it.
write_config-verdict_example : write_config written_system terminal 5 "/c.json" bad ≡ (
    if bad.oauth.client_secret_env == "" || is_env_var_name bad.oauth.client_secret_env
    then success written_system terminal 5 (some ("/c.json", bad))
    else refusal written_system terminal 5 "/c.json" bad)
write_config-verdict_example =
    write_config-verdict written_system terminal 5 "/c.json" bad bad-ReadsBack
      ("1.2" ∷ "" ∷ "MY-SECRET" ∷ []) [] refl asks_config refl refl refl

stays : (write_config written_system terminal 5 "/c.json" bad).written ≡ some ("/c.json", bad)
unfolding write_config is_env_var_name validate init_config
stays = refl
