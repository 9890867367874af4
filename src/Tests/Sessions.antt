-- ===== src/Tests/Sessions.antt =====
-- A session with a server that wants a new token once, and then answers with JSON.
use slack_mcp_extender.Base.{
  ℕ, String, ◌≡◌, refl, false, none, some, [], ◌∷◌, if◌then◌else◌, eqb, has_prefix,
}
use slack_mcp_extender.Base.Result.{ok, err}
use slack_mcp_extender.Transport.Session.{Reply, Session, Server, send, close}
use slack_mcp_extender.Transport.Session.Sent.{Sends, send-Sends}
use slack_mcp_extender.Transport.Session.Closed.{close_final}

-- The state counts the invalidations.
abbrev reply : ℕ → Reply
reply invalidations = record {
  status = if eqb invalidations 0 then 401 else 200;
  session_header = "S1";
  content_type = "application/json";
  body = record { bytes = 1 ∷ []; broken = none };
}

abbrev server : Server ℕ
server = record {
  new_request = none;
  exchange = λ post invalidations. (ok (reply invalidations), invalidations);
  auth = some (record {
    token = λ invalidations. (ok "t", invalidations);
    invalidate = λ invalidations. 1;
  });
  text_of_bytes = λ bytes. "{\"id\":1}";
  decimal = λ n. "";
}

abbrev fresh : Session ℕ
fresh = record {
  remote = 0;
  is_closed = false;
  session_id = "";
  incoming = [];
  streams = [];
  posts = [];
}

sends_again : (send server "{}" fresh).1.incoming ≡ "{\"id\":1}" ∷ []
unfolding send has_prefix
sends_again = refl

keeps_session : (send server "{}" fresh).1.session_id ≡ "S1"
unfolding send has_prefix
keeps_session = refl

send-Sends_example : Sends server "{}" fresh (send server "{}" fresh)
send-Sends_example = send-Sends server "{}" fresh

close_final_example :
    (close server (close server fresh) ≡ close server fresh)
    × ((line : String)
        → send server line (close server fresh) ≡ (err "transport is closed", close server fresh))
close_final_example = close_final server fresh
