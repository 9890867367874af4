-- ===== src/Oauth/Callback.antt =====
-- internal/oauth/login.go: the handler of the callback, and the wait for its answer.
pub mod Checked
use slack_mcp_extender.Base.{
  ℕ, String, ◌<>◌, ◌≡◌, not, Option, none, some, List, [], ◌∷◌, if◌then◌else◌, ◌==◌,
}
use slack_mcp_extender.Base.Result.{Result, err, ok}
use slack_mcp_extender.Transport.Forms.{Form, get}

-- What the handler sends on one of the channels, the code or the error, and then the page.
pub record Handled : Type 0 where
  pub signal : Result String String
  pub status : ℕ
  pub page : String

abbrev mismatch : Handled
mismatch = record {
  signal = err "state parameter mismatch (possible CSRF)";
  status = 400;
  page = "State mismatch\n";
}

abbrev no_code : Handled
no_code = record {
  signal = err "no authorization code in callback";
  status = 400;
  page = "No code\n";
}

abbrev granted : String → Handled
granted code = record {
  signal = ok code;
  status = 200;
  page =
      "<html><body><h2>Authorization successful</h2><p>You can close this window and return to the terminal.</p></body></html>";
}

-- The codes and the errors that are waiting; each channel has room for one.
pub record Channels : Type 0 where
  pub code : Option String
  pub error : Option String

abbrev pub no_signals : Channels
no_signals = record { code = none; error = none }

-- `escape` is `html.EscapeString`, `expected` the state that the login made up.
module _ (escape : String → String) (expected : String) where
  abbrev refused : String → String → Handled
  refused error description = record {
    signal = err ("authorization error: " <> (error <> (": " <> description)));
    status = 200;
    page =
        "<html><body><h2>Authorization failed</h2><p>"
        <> (escape error
            <> (": "
                <> (escape description <> "</p><p>You can close this window.</p></body></html>")));
  }

  unfoldable pub callback : Form → Handled
  unfolding get
  callback query =
      if not (get "state" query == expected)
      then mismatch
      else (if not (get "error" query == "")
          then refused (get "error" query) (get "error_description" query)
          else (if get "code" query == "" then no_code else granted (get "code" query)))

  abbrev pub first : Option String → String → Option String
  first none value = some value
  first (some earlier) value = some earlier

  -- A handler waits at a channel that is full.
  abbrev pub put : Result String String → Channels → Channels
  put (ok code) channels = record channels { code = first channels.code code }
  put (err e) channels = record channels { error = first channels.error e }

  unfoldable pub arrivals : List Form → Channels → Channels
  unfolding callback
  arrivals [] channels = channels
  arrivals (query ∷ queries) channels = arrivals queries (put (callback query).signal channels)

-- `select` takes a signal that is there, of either channel, or the time is up.
pub data Selects (timeout : String) (channels : Channels) : Result String String → Type 0 where
  takes_code : {code : String} → channels.code ≡ some code → Selects timeout channels (ok code)
  takes_error : {e : String} → channels.error ≡ some e → Selects timeout channels (err e)
  times_out : Selects timeout channels (err ("authorization timed out (" <> (timeout <> ")")))
