-- ===== src/Proxy/Pipe.antt =====
-- The state of the pipe: its two goroutines share the table of pending requests and the output.
use slack_mcp_extender.Base.{String, Bool, Option, List}
use slack_mcp_extender.Json.{Json}
use slack_mcp_extender.Tools.Replies.{ToolResult}
use slack_mcp_extender.Jsonrpc.{Message, ToolInfo}

-- What the pipe uses of the injected tools, whose state is `W`.
pub record LocalTools (W : Type 0) : Type 0 where
  pub definitions : List ToolInfo
  pub handles : String → Bool
  pub handle : String → List (String × Json) → List (String × Json) → W → ToolResult × W

-- A forwarded request, its line, and whether it is a tools/list.
pub record Call : Type 0 where
  pub request : Message
  pub raw : String
  pub listing : Bool

-- What the goroutine that reads the agent does: it reads the next line, is in `Upstream.Send` with
-- a request or with another message, waits for a response, or has panicked.
pub data Phase : Type 0 where
  reading : Phase
  sending : Call → Phase
  relaying : Phase
  waiting : Call → Phase
  crashed : Call → Phase

-- A line written to the agent: a message of the pipe's own with its text, or an upstream line.
pub data Output : Type 0 where
  reply : Message → String → Output
  relay : String → Output

pub data Diagnostic : Type 0 where
  invalid_agent : String → Diagnostic
  invalid_upstream : String → Diagnostic
  route_error : String → Diagnostic
  merge_failed : Diagnostic
  collides : String → Diagnostic

-- What `readUpstream` has taken out of the table and not yet put into a channel: nothing, a response
-- for the channel of the last request that was forwarded, or one for an earlier channel.
pub data Hand : Type 0 where
  free : Hand
  holds : Message → Hand
  holds_stale : Message → Hand

-- The ids in the table, the response in hand, the channel of the last request that was forwarded, the
-- tools' world, the lines handed to `Upstream.Send`, the lines written to the agent, and the diagnostics.
pub record Pipe (W : Type 0) : Type 0 where
  pub pending : List String
  pub hand : Hand
  pub inbox : Option Message
  pub world : W
  pub sent : List String
  pub out : List Output
  pub logged : List Diagnostic
