-- ===== src/Transfer/Client/Retried.antt =====
-- The loop of a call of the API ends, after one retry at most.
use slack_mcp_extender.Base.{ℕ, suc, String, ◌≡◌, refl, true, false, some-if, Option, some, List}
use slack_mcp_extender.Base.Result.{Result}
use slack_mcp_extender.Json.{Json}
use slack_mcp_extender.Transfer.Io.{Net}
use slack_mcp_extender.Transfer.Web.{Client}
use slack_mcp_extender.Transfer.Client.{api_call_once, api_loop, api_call}

module _ {S V : Type 0} (client : Client S) (decode : List ℕ → Result String V)
    (method api_method : String) (query : List (String × String)) (value : Option Json) where
  second_round :
      (rounds : ℕ) (net : Net S)
      → api_loop client decode method api_method query value (suc rounds) true net
        ≡ some (api_call_once client decode method api_method query value net)
  unfolding api_loop
  second_round rounds net = refl

  -- The loop of apiCall ends within two rounds, whatever the token provider and the server answer:
  -- with the outcome of one call, or, where that is an authentication error and there is a
  -- provider, of a second call made after the token is invalidated once.
  pub api_loop-api_call :
      (rounds : ℕ) (net : Net S)
      → api_loop client decode method api_method query value (suc (suc rounds)) false net
        ≡ some (api_call client decode method api_method query value net)
  unfolding api_loop api_call
  api_loop-api_call rounds net = some-if _ _ _
