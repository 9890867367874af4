-- ===== src/Tests/Settings.antt =====
-- A configuration that loads, and downloads that end well and badly.
use slack_mcp_extender.Base.{◌≡◌, refl, false, none, some, [], ◌∷◌, arith}
use slack_mcp_extender.Base.Int.{pos, max_int64}
use slack_mcp_extender.Base.Result.{ok}
use slack_mcp_extender.Filepath.{base, dir, join}
use slack_mcp_extender.Config.Types.{Config, System}
use slack_mcp_extender.Config.Validate.{validate}
use slack_mcp_extender.Config.Load.{load, extension, trim_suffix}
use slack_mcp_extender.Config.Load.Usable.{IsUsable, load-IsUsable}
use slack_mcp_extender.Transfer.Fetch.{Answers, tried, chmod, rename, fetch_to}
use slack_mcp_extender.Transfer.Fetch.Capped.{IsClean, fetch_to-IsClean}

abbrev pub written : Config
written = record {
  upstream_url = "";
  oauth = record {
    authorize_url = "https://slack.com/oauth";
    token_url = "https://slack.com/token";
    client_id = "1.2";
    client_secret = "";
    client_secret_env = "SECRET_1";
    scopes = "files:write" ∷ [];
    callback_port = pos 7777;
    callback_scheme = "";
    client_auth_method = "";
  };
  allowed_roots = [];
  allow_hidden = false;
  max_file_size = pos 0;
  state_dir = "";
  timeout_ms = pos 0;
  path = "";
}

abbrev pub loaded : Config
loaded = record written {
  upstream_url = "https://mcp.slack.com/mcp";
  oauth = record written.oauth { callback_scheme = "https" };
  max_file_size = pos 52428800;
  timeout_ms = pos 120000;
  state_dir = "/home/u/team.state";
  path = "/home/u/team.json";
}

-- A file with mode 0600.
abbrev pub system : System
system = record {
  parse_url = λ url. some (record { scheme = "https"; host = "mcp.slack.com" });
  quote = λ text. text;
  octal = λ mode. "600";
  abs = λ path. ok path;
  home = ok "/home/u";
  permissions = λ path. ok 384;
  open_file = λ path. ok "{}";
  decode = λ text. ok (written, false);
  getenv = λ name. "";
  windows = false;
}

loads : load system "/home/u/team.json" ≡ ok loaded
unfolding load validate base dir join extension trim_suffix
loads = refl

load-IsUsable_example : IsUsable system "/home/u/team.json" loaded
load-IsUsable_example = load-IsUsable system "/home/u/team.json" loaded loads

-- A body of three bytes.
abbrev pub answers : Answers
answers = record {
  build_request = none;
  token = none;
  exchange = ok (record { status = 200; body = record { bytes = 1 ∷ 2 ∷ 3 ∷ []; broken = none } });
  dir_of_target = "/w";
  created = ok "/w/tmp";
  write_error = none;
  close_error = none;
  chmod_error = none;
  rename_error = none;
  text_of_bytes = λ bytes. "";
  decimal = λ n. "";
  decimal_cap = λ n. "";
}

fetches : fetch_to answers "/w/f" (pos 5) ≡ (
  ok (pos 3),
  tried answers "/w/tmp" (1 ∷ 2 ∷ 3 ∷ []) (chmod "/w/tmp" ∷ rename "/w/tmp" "/w/f" ∷ []),
)
unfolding fetch_to
fetches = refl

-- One more than the largest cap wraps around, and nothing is read.
fetches_nothing :
    fetch_to answers "/w/f" (pos max_int64)
    ≡ (ok (pos 0), tried answers "/w/tmp" [] (chmod "/w/tmp" ∷ rename "/w/tmp" "/w/f" ∷ []))
unfolding fetch_to
fetches_nothing = refl

fetch_to-IsClean_example : IsClean answers "/w/f" 5 (fetch_to answers "/w/f" (pos 5))
fetch_to-IsClean_example = fetch_to-IsClean answers "/w/f" 5 (ground arith) (ground arith)
