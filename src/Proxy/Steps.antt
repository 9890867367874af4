-- ===== src/Proxy/Steps.antt =====
-- The steps of the two goroutines of the pipe, in every order in which they can happen.
use slack_mcp_extender.Base.{String, ◌≡◌, ◌≢◌, Option, none, some, List, [], ◌∷◌}
use slack_mcp_extender.Jsonrpc.{Message, RawCodec}
use slack_mcp_extender.Proxy.Pipe.{
  LocalTools, Call, Phase, reading, sending, relaying, waiting, crashed, route_error, free, Pipe,
}
use slack_mcp_extender.Proxy.Routing.{
  log, on_agent_line, on_upstream_line, hand_over, send_failed, finish, time_out,
}

-- The agent's next line, the return of `Send` or its error, a line of the upstream, the
-- putting of a response into its channel, the receipt of the response in the channel, and the firing of the timer.
pub data Event : Type 0 where
  agent_line : String → Event
  send_returned : Event
  send_error : String → Event
  upstream_line : String → Event
  handed_over : Event
  response_received : Event
  timer_fired : Event

-- A panic ends the process.
abbrev pub Live : Phase → Type 0
Live (crashed call) = ⊥
Live _ = Unit

abbrev pub empty_pipe : {W : Type 0} → W → Pipe W
empty_pipe w = record {
  pending = [];
  hand = free;
  inbox = none;
  world = w;
  sent = [];
  out = [];
  logged = [];
}

module _ {W : Type 0} (codec : RawCodec) (injected : Option (LocalTools W)) where
  pub data Step : Phase → Pipe W → Event → Phase × Pipe W → Type 0 where
    reads :
        {line : String} {c : Pipe W}
        → Step reading c (agent_line line) (on_agent_line codec injected line c)
    sends : {call : Call} {c : Pipe W} → Step (sending call) c send_returned (waiting call, c)
    passes : {c : Pipe W} → Step relaying c send_returned (reading, c)
    cannot_send :
        {call : Call} {e : String} {c : Pipe W}
        → Step (sending call) c (send_error e) (reading, send_failed codec call e c)
    cannot_pass :
        {e : String} {c : Pipe W}
        → Step relaying c (send_error e) (reading, log codec (route_error e) c)
    hears :
        {phase : Phase} {line : String} {c : Pipe W}
        → Live phase
        → c.hand ≡ free
        → Step phase c (upstream_line line) (phase, on_upstream_line codec line c)
    hands_over :
        {phase : Phase} {c : Pipe W}
        → Live phase
        → c.hand ≢ free
        → Step phase c handed_over (phase, hand_over codec c)
    receives :
        {call : Call} {m : Message} {c : Pipe W}
        → c.inbox ≡ some m
        → Step
            (waiting call)
            c
            response_received
            (finish codec injected call m (record c { inbox = none }))
    gives_up :
        {call : Call} {c : Pipe W}
        → Step (waiting call) c timer_fired (time_out codec injected call c)

  -- The states reached from an empty pipe, with the events so far, the latest first.
  pub data Reached (w : W) : List Event → Phase × Pipe W → Type 0 where
    start : Reached w [] (reading, empty_pipe w)
    step :
        {events : List Event} {event : Event} {phase : Phase} {c : Pipe W} {next : Phase × Pipe W}
        → Reached w events (phase, c)
        → Step phase c event next
        → Reached w (event ∷ events) next
