-- ===== src/Proxy/Routing.antt =====
-- The routing of an agent's line and of an upstream line, and the end of a forwarded request.
use slack_mcp_extender.Base.{
  String, ◌<>◌, Bool, true, false, ◌&&◌, Option, none, some, List, [], ◌∷◌, ◌++◌, map,
  if◌then◌else◌, ◌==◌,
}
use slack_mcp_extender.Base.Int.{negsuc}
use slack_mcp_extender.Base.Result.{Result, err, ok}
use slack_mcp_extender.Jsonrpc.{
  Message, RpcError, RawCodec, ToolCallParams, Merge, merged, failed, panicked, is_request,
  is_response, id_string, mentions, new_error_response, new_result_response,
  merge_tools_list_result,
}
use slack_mcp_extender.Proxy.Pipe.{
  LocalTools, Call, Phase, reading, sending, relaying, crashed, Output, reply, relay, Diagnostic,
  invalid_agent, invalid_upstream, route_error, merge_failed, collides, Hand, free, holds,
  holds_stale, Pipe,
}

-- `delete(p.pending, id)`
unfoldable pub remove : String → List String → List String
remove id [] = []
remove id (k ∷ ids) = let rest = remove id ids in if k == id then rest else k ∷ rest

abbrev pub failure : String → String → Message
failure id text = new_error_response id (negsuc 32602) text

abbrev pub call_of : Message → String → Bool → Call
call_of m raw listing = record { request = m; raw = raw; listing = listing }

-- The channel that a response in hand is for is no longer the last one.
abbrev pub outdated : Hand → Hand
outdated free = free
outdated (holds m) = holds_stale m
outdated (holds_stale m) = holds_stale m

module _ {W : Type 0} (codec : RawCodec) where
  abbrev pub log : Diagnostic → Pipe W → Pipe W
  log d c = record c { logged = c.logged ++ (d ∷ []) }

  abbrev pub put : Output → Pipe W → Pipe W
  put o c = record c { out = c.out ++ (o ∷ []) }

  -- The error response of a request whose routing failed; that it cannot be written is ignored.
  abbrev pub put_failure : Message → Result String String → Pipe W → Pipe W
  put_failure m (err e) c = c
  put_failure m (ok text) c = put (reply m text) c

  unfoldable pub route_failed : String → String → Pipe W → Pipe W
  route_failed id e c =
      put_failure (failure id e) (codec.marshal_message (failure id e)) (log (route_error e) c)

  -- `writeMessage` as the last step of a request's routing.
  abbrev pub put_message : String → Message → Result String String → Pipe W → Pipe W
  put_message id m (err e) c = route_failed id e c
  put_message id m (ok text) c = put (reply m text) c

  unfoldable pub write_message : String → Message → Pipe W → Pipe W
  unfolding route_failed
  write_message id m c = put_message id m (codec.marshal_message m) c

  -- `forwardRequest` up to the call of `Send`: a fresh channel stands in the table.
  unfoldable pub forward_request : Call → Pipe W → Phase × Pipe W
  forward_request call c = (
    sending call,
    record c {
      pending = id_string call.request ∷ remove (id_string call.request) c.pending;
      hand = outdated c.hand;
      inbox = none;
      sent = c.sent ++ (call.raw ∷ []);
    },
  )

  abbrev pub respond : String → Result String Message → Pipe W → Pipe W
  respond id (err e) c = write_message id (failure id e) c
  respond id (ok m) c = write_message id m c

  abbrev pub run_local : LocalTools W → Message → ToolCallParams → Pipe W → Pipe W
  run_local tools m params c =
      let (result, world) = tools.handle params.name params.arguments params.meta c.world in
      respond m.id (new_result_response codec m.id result) (record c { world = world })

  abbrev pub named_call : LocalTools W → Option ToolCallParams → Option ToolCallParams
  named_call tools none = none
  named_call tools (some params) = if tools.handles params.name then some params else none

  -- The call of an injected tool that a request makes, if it makes one.
  unfoldable pub local_call :
      Option (LocalTools W) → Message → Option (LocalTools W × ToolCallParams)
  local_call none m = none
  local_call (some tools) m = elim (named_call tools (codec.parse_tool_call m.params)) [
    | none ↦ none
    | some params ↦ some (tools, params)
  ]

  abbrev pub local_or_forward :
      Option (LocalTools W × ToolCallParams) → Message → String → Pipe W → Phase × Pipe W
  local_or_forward none m raw c = forward_request (call_of m raw false) c
  local_or_forward (some (tools, params)) m raw c = (reading, run_local tools m params c)

  unfoldable pub handle_tools_call :
      Option (LocalTools W) → Message → String → Pipe W → Phase × Pipe W
  unfolding forward_request local_call
  handle_tools_call injected m raw c = local_or_forward (local_call injected m) m raw c

  unfoldable pub handle_request : Option (LocalTools W) → Message → String → Pipe W → Phase × Pipe W
  unfolding handle_tools_call
  handle_request injected m raw c =
      if m.method == "tools/list"
      then forward_request (call_of m raw true) c
      else (if m.method == "tools/call"
          then handle_tools_call injected m raw c
          else forward_request (call_of m raw false) c)

  -- A notification, or a response to a request of the server, goes upstream as it is.
  unfoldable pub route_agent_message :
      Option (LocalTools W) → Message → String → Pipe W → Phase × Pipe W
  unfolding handle_request
  route_agent_message injected m raw c =
      if is_request m
      then handle_request injected m raw c
      else (relaying, record c { sent = c.sent ++ (raw ∷ []) })

  abbrev pub on_agent_message :
      Option (LocalTools W) → String → Option Message → Pipe W → Phase × Pipe W
  on_agent_message injected line none c = (reading, log (invalid_agent line) c)
  on_agent_message injected line (some m) c = route_agent_message injected m line c

  unfoldable pub on_agent_line : Option (LocalTools W) → String → Pipe W → Phase × Pipe W
  unfolding route_agent_message
  on_agent_line injected line c =
      if line == "" then (reading, c) else on_agent_message injected line (codec.parse line) c

  -- Under the mutex, a response to a pending request is taken with its channel out of the table; all
  -- else goes to the agent as it is.
  unfoldable pub dispatch : String → Message → Pipe W → Pipe W
  dispatch line m c =
      if is_response m && mentions (id_string m) c.pending
      then record c { pending = remove (id_string m) c.pending; hand = holds m }
      else put (relay line) c

  abbrev pub hand_over_from : Hand → Pipe W → Pipe W
  hand_over_from free c = c
  hand_over_from (holds m) c = record c { hand = free; inbox = some m }
  hand_over_from (holds_stale m) c = record c { hand = free }

  -- `ch <- msg`, without the mutex; each channel gets at most one message and has room for it, and
  -- nobody reads an earlier one.
  unfoldable pub hand_over : Pipe W → Pipe W
  hand_over c = hand_over_from c.hand c

  abbrev pub on_upstream_message : String → Option Message → Pipe W → Pipe W
  on_upstream_message line none c = log (invalid_upstream line) c
  on_upstream_message line (some m) c = dispatch line m c

  unfoldable pub on_upstream_line : String → Pipe W → Pipe W
  unfolding dispatch remove
  on_upstream_line line c = if line == "" then c else on_upstream_message line (codec.parse line) c

  -- `Send` has returned; its error ends a request's routing.
  unfoldable pub send_failed : Call → String → Pipe W → Pipe W
  unfolding remove route_failed
  send_failed call e c =
      route_failed call.request.id ("send to upstream: " <> e)
        (record c { pending = remove (id_string call.request) c.pending })

  abbrev log_all : List String → Pipe W → Pipe W
  log_all found c = record c { logged = c.logged ++ map collides found }

  abbrev pub after_merge : Call → Message → Merge → Pipe W → Phase × Pipe W
  after_merge call m (merged out found) c =
      (reading, write_message call.request.id (record m { result = some out }) (log_all found c))
  after_merge call m failed c = (reading, write_message call.request.id m (log merge_failed c))
  after_merge call m panicked c = (crashed call, c)

  -- The response to a tools/list gains the injected tools, unless it is an error.
  abbrev pub merge_response :
      Option (LocalTools W)
      → Call
      → Message
      → Option String
      → Option RpcError
      → Pipe W
      → Phase × Pipe W
  merge_response (some tools) call m (some result) none c =
      after_merge call m (merge_tools_list_result codec result tools.definitions) c
  merge_response _ call m _ _ c = (reading, write_message call.request.id m c)

  unfoldable pub finish : Option (LocalTools W) → Call → Message → Pipe W → Phase × Pipe W
  unfolding write_message
  finish injected call m c =
      if call.listing
      then merge_response injected call m m.result m.error c
      else (reading, write_message call.request.id m c)

  -- The timer has fired.
  unfoldable pub time_out : Option (LocalTools W) → Call → Pipe W → Phase × Pipe W
  unfolding finish
  time_out injected call c =
      finish injected call (failure call.request.id "upstream timeout")
        (record c { pending = remove (id_string call.request) c.pending })
