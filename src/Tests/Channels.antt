-- ===== src/Tests/Channels.antt =====
-- Two goroutines and a channel, and a server that rejects a token that cannot be renewed.
use slack_mcp_extender.Base.{ℕ, suc, String, ◌≡◌, refl, false, none, some, List, [], ◌∷◌, arith}
use slack_mcp_extender.Base.Result.{ok, err}
use slack_mcp_extender.Transport.Channel.{Channel, leave, Arises, start, move, queues, reads}
use slack_mcp_extender.Transport.Channel.Ordered.{IsOrdered, arises-IsOrdered}
use slack_mcp_extender.Transport.Tokens.{Provider}
use slack_mcp_extender.Transport.Session.{Reply, Session, Server, send}
use slack_mcp_extender.App.Renewal.{stored_provider}
use slack_mcp_extender.App.Renewal.Spent.{refusal, spent_after, send-refuses}
use slack_mcp_extender.Tests.Tokens.{cfg, disk, endpoint, provider}

-- A response with one message, and a stream with two.
abbrev given : ℕ → List String
given ℕ.zero = "a" ∷ []
given (suc ℕ.zero) = "b" ∷ "c" ∷ []
given (suc (suc n)) = []

abbrev last : Channel
last = record {
  left = leave 1 ("c" ∷ []) (leave 0 [] given);
  accepted = (0, "a") ∷ (1, "b") ∷ [];
  queued = (1, "b") ∷ [];
  taken = (0, "a") ∷ [];
  is_closed = false;
}

last_arises : Arises given last
last_arises =
    move
      (move (move start (queues 0 "a" [] refl (omega arith)))
        (queues 1 "b" ("c" ∷ []) refl (omega arith)))
      (reads refl)

arises-IsOrdered_example : IsOrdered given last
arises-IsOrdered_example = arises-IsOrdered given last last_arises

abbrev rejection : Reply
rejection = record {
  status = 401;
  session_header = "";
  content_type = "";
  body = record { bytes = []; broken = none };
}

abbrev rejecting : Server (Provider × ℕ)
rejecting = record {
  new_request = none;
  exchange = λ post s. (ok rejection, (s.0, suc s.1));
  auth = some (stored_provider cfg disk endpoint 500);
  text_of_bytes = λ bytes. "";
  decimal = λ n. "";
}

abbrev session : Session (Provider × ℕ)
session = record {
  remote = (record provider { tokens = record provider.tokens { refresh_token = "" } }, 0);
  is_closed = false;
  session_id = "";
  incoming = [];
  streams = [];
  posts = [];
}

send-refuses_example :
    (send rejecting "{}" session
      ≡ (err refusal, spent_after cfg disk endpoint 500 rejecting refl refl "{}" session))
    × ((later : String)
        → send rejecting later (spent_after cfg disk endpoint 500 rejecting refl refl "{}" session)
          ≡ (err refusal, spent_after cfg disk endpoint 500 rejecting refl refl "{}" session))
send-refuses_example =
    send-refuses cfg disk endpoint 500 rejecting refl refl "{}" session rejection refl refl refl
      refl refl refl
