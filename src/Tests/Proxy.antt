-- ===== src/Tests/Proxy.antt =====
-- Runs of the pipe with small messages: a request that is answered, one that times out, its late
-- response, and a local call.
use slack_mcp_extender.Base.{
  String, ◌+◌, ◌≤◌, ◌≡◌, ◌≢◌, refl, true, Option, none, some, List, [], ◌∷◌, ◌++◌, if◌then◌else◌,
  ◌==◌,
}
use slack_mcp_extender.Tools.Dispatch.{handles}
use slack_mcp_extender.Tools.Definitions.{definitions}
use slack_mcp_extender.Jsonrpc.{
  names, Message, RawCodec, is_request, is_response, comparable, mentions, new_error_response,
  new_result_response,
}
use slack_mcp_extender.Proxy.Pipe.{
  LocalTools, Call, reading, sending, waiting, free, holds, Pipe, reply, relay,
}
use slack_mcp_extender.Proxy.Routing.{failure, on_agent_line, on_upstream_line, hand_over, time_out}
use slack_mcp_extender.Proxy.Steps.{
  Event, agent_line, send_returned, upstream_line, handed_over, response_received, timer_fired,
  Reached, start, step, reads, sends, hears, hands_over, receives, gives_up,
}
use slack_mcp_extender.Proxy.Writes.{answered}
use slack_mcp_extender.Proxy.Linked.{IsLinked, reached-IsLinked}
use slack_mcp_extender.Proxy.Answered.{requested, reached-answered}
use slack_mcp_extender.Proxy.Forwarded.{forwarded, reached-forwarded}
use slack_mcp_extender.Proxy.Returns.{Leads, done, and_then, Onward, Leads-Onward}
use slack_mcp_extender.Proxy.Injected.{handles-mentions}
use slack_mcp_extender.Tests.Jsonrpc.{small}

abbrev request : String → String → Message
request id method = record {
  jsonrpc = "2.0";
  id = id;
  method = method;
  params = "";
  result = none;
  error = none;
}

abbrev response : String → Message
response id = record {
  jsonrpc = "2.0";
  id = id;
  method = "";
  params = "";
  result = some "{}";
  error = none;
}

abbrev parse_line : String → Option Message
parse_line line =
    if line == "ping"
    then some (request "1" "ping")
    else (if line == "pong"
        then some (response "1")
        else (if line == "call" then some (request "2" "tools/call") else none))

abbrev pipe_codec : RawCodec
pipe_codec = record small {
  parse = parse_line;
  parse_tool_call = λ params. some (record { name = "up"; arguments = []; meta = [] });
}

abbrev one_tool : LocalTools (Unit {0})
one_tool = record {
  definitions = [];
  handles = λ name. name == "up";
  handle = λ name args meta w. (record { content = []; is_error = true }, w);
}

abbrev events : List Event
events =
    upstream_line "pong"
    ∷ timer_fired
    ∷ send_returned
    ∷ agent_line "ping"
    ∷ agent_line "call"
    ∷ response_received
    ∷ send_returned
    ∷ handed_over
    ∷ upstream_line "pong"
    ∷ agent_line "ping"
    ∷ []

abbrev last : Pipe (Unit {0})
last = record {
  pending = [];
  hand = free;
  inbox = none;
  world = tt;
  sent = "ping" ∷ "ping" ∷ [];
  out =
      reply (response "1") "1"
      ∷ reply (record (response "2") { result = some "{}" }) "2"
      ∷ reply (failure "1" "upstream timeout") "1"
      ∷ relay "pong"
      ∷ [];
  logged = [];
}

holds-ne-free : holds (response "1") ≢ free
holds-ne-free = λ e. cc

pipe_runs : Unit {0}
unfolding on_agent_line on_upstream_line hand_over time_out is_request is_response comparable
    new_error_response new_result_response
pipe_runs = tt

last_reached : Reached pipe_codec (some one_tool) tt events (reading, last)
unfolding pipe_runs
last_reached =
    step
      (step
        (step
          (step
            (step
              (step
                (step (step (step (step start reads) (hears tt refl)) (hands_over tt holds-ne-free))
                  sends)
                (receives refl))
              reads)
            reads)
          sends)
        gives_up)
      (hears tt refl)

reached-IsLinked_example : IsLinked (reading, last)
reached-IsLinked_example =
    reached-IsLinked pipe_codec (some one_tool) tt events (reading, last) last_reached

reached-answered_example : answered last.out ++ [] ≡ requested pipe_codec events
unfolding new_error_response
reached-answered_example =
    reached-answered pipe_codec (λ id text. (id, refl)) (some one_tool) tt events reading last
      last_reached

reached-forwarded_example : last.sent ≡ forwarded pipe_codec (some one_tool) events
reached-forwarded_example =
    reached-forwarded pipe_codec (some one_tool) tt events (reading, last) last_reached

handles-mentions_example :
    handles "ext_file_upload" ≡ mentions "ext_file_upload" (names definitions)
handles-mentions_example = handles-mentions "ext_file_upload"

abbrev listing_call : Call
listing_call = record { request = request "3" "tools/list"; raw = "list"; listing = true }

abbrev heard : Pipe (Unit {0})
heard = on_upstream_line pipe_codec "pong" last

-- An upstream line comes while the request is sent.
sends_on :
    Leads pipe_codec
      (some one_tool)
      (sending listing_call, last)
      (upstream_line "pong" ∷ send_returned ∷ [])
      (waiting listing_call, heard)
sends_on = and_then (hears tt refl) (and_then sends done)

Leads-Onward_example :
    (1 + 1 ≤ 2) × (Unit {0} → Onward pipe_codec (some one_tool) (waiting listing_call) heard)
Leads-Onward_example =
    Leads-Onward pipe_codec (some one_tool) (sending listing_call) last
      (upstream_line "pong" ∷ send_returned ∷ []) (waiting listing_call) heard sends_on
      (tt, (tt, tt))
