-- ===== src/App/Commands/Shown.antt =====
-- What `config` shows of a secret.
use slack_mcp_extender.Base.{String, ◌≡◌, ◌≢◌, refl, not, true, ◌==◌, eq_iff, arith}
use slack_mcp_extender.Config.Types.{Config, System}
use slack_mcp_extender.Config.Validate.{warnings, redacted}
use slack_mcp_extender.App.Commands.{Shell, config_outcome}

abbrev pub with_literal : Config → String → Config
with_literal c secret = record c { oauth = record c.oauth { client_secret = secret } }

filled_test : (s : String) → s ≢ "" → not (s == "") ≡ true
filled_test s n = ground (arith, eq_iff s "")

redacted-with_literal :
    (c : Config) (s : String) → s ≢ "" → redacted (with_literal c s) ≡ with_literal c "[redacted]"
unfolding redacted
redacted-with_literal c s n = rw (filled_test s n) refl

warnings-with_literal :
    (c : Config) (s t : String)
    → s ≢ ""
    → t ≢ ""
    → warnings (with_literal c s) ≡ warnings (with_literal c t)
unfolding warnings
warnings-with_literal c s t n m = rw (filled_test s n, filled_test t m) refl

-- What config show and config validate print, and their exit code, is the same for any two literal
-- secrets that a configuration may have: neither tells anything about the secret but that it is there.
pub config_outcome-hides :
    (sys : System) (shell : Shell) (sub : String) (c : Config) (s t : String)
    → s ≢ ""
    → t ≢ ""
    → config_outcome sys shell sub (with_literal c s)
      ≡ config_outcome sys shell sub (with_literal c t)
unfolding config_outcome
config_outcome-hides sys shell sub c s t n m =
    rw (redacted-with_literal c s n, redacted-with_literal c t m, warnings-with_literal c s t n m)
      refl
