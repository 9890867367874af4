-- ===== src/Transfer/Io.antt =====
-- The calls of the transfer client as a monad of state and error, which keeps the requests sent.
pub mod Runs
pub use slack_mcp_extender.Base.Action.{lift, next, ◌>>=◌, ◌>>◌}
use slack_mcp_extender.Base.Action.{Action}
use slack_mcp_extender.Base.{ℕ, String, Option, none, some, List, [], ◌∷◌, ◌++◌}
use slack_mcp_extender.Base.Int.{ℤ}
use slack_mcp_extender.Base.Result.{Result, err, ok}
use slack_mcp_extender.Json.{Json}
use slack_mcp_extender.Transfer.Types.{TransferError, failed}
use slack_mcp_extender.Transfer.Http.{Response}

-- A file is streamed with the length that it had when it was measured.
pub data RequestBody : Type 0 where
  no_body : RequestBody
  json_body : Json → RequestBody
  file_body : String → ℤ → RequestBody

pub record Request : Type 0 where
  pub method : String
  pub url : String
  pub headers : List (String × String)
  pub body : RequestBody

-- The outside world, with the client's tokens, and the requests so far.
pub record Net (S : Type 0) : Type 0 where
  pub remote : S
  pub requests : List Request

abbrev pub Outcome : Type 0 → Type 0 → Type 0
Outcome S V = Result TransferError V × Net S

abbrev pub Io : Type 0 → Type 0 → Type 0
Io S V = Action (Net S) TransferError V

-- `fmt.Errorf` around an error's text.
abbrev pub checked {ℓ} : {V : Type ℓ} → (String → String) → Result String V → Result TransferError V
checked wrap (err e) = err (failed (wrap e))
checked wrap (ok v) = ok v

abbrev pub unless_error : (String → String) → Option String → Result TransferError (Unit {0})
unless_error wrap none = ok tt
unless_error wrap (some e) = err (failed (wrap e))
