-- ===== src/Proxy/Answered.antt =====
-- The answers that the agent gets, against the requests that it sent.
use slack_mcp_extender.Base.{
  String, ◌≡◌, refl, sym, ap, ◌∙◌, ◌&&◌, Bool-cases, inl, inr, both_branches, Option, none, some,
  List, [], ◌∷◌, ◌++◌, append-nil, if◌then◌else◌, ◌==◌,
}
use slack_mcp_extender.Jsonrpc.{
  Message, RawCodec, ToolCallParams, id_string, is_response, is_request, mentions,
}
use slack_mcp_extender.Proxy.Pipe.{
  LocalTools, Call, Phase, reading, sending, relaying, waiting, crashed, Hand, free, holds,
  holds_stale, Pipe, relay,
}
use slack_mcp_extender.Proxy.Routing.{
  hand_over_from, hand_over, forward_request, local_call, local_or_forward, handle_tools_call,
  handle_request, route_agent_message, on_agent_message, on_agent_line, dispatch,
  on_upstream_message, on_upstream_line,
}
use slack_mcp_extender.Proxy.Steps.{
  Event, agent_line, Step, reads, sends, passes, cannot_send, cannot_pass, hears, hands_over,
  receives, gives_up, Reached, start, step,
}
use slack_mcp_extender.Proxy.Writes.{
  Finished, returned, panics, Reports, answered, answered-append, run_local-Wrote, finish-Finished,
  time_out-Finished, send_failed-Wrote,
}
use slack_mcp_extender.Proxy.Linked.{IsLinked, reached-IsLinked, filled_inbox}

-- The request that is being answered.
abbrev pub unanswered : Phase → List String
unanswered reading = []
unanswered relaying = []
unanswered (sending call) = id_string call.request ∷ []
unanswered (waiting call) = id_string call.request ∷ []
unanswered (crashed call) = id_string call.request ∷ []

-- The ids of the requests, in the order in which they were read.
abbrev pub requested_by : Option Message → List String
requested_by none = []
requested_by (some m) = if is_request m then id_string m ∷ [] else []

abbrev pub requested_in : RawCodec → String → List String
requested_in codec line = if line == "" then [] else requested_by (codec.parse line)

abbrev pub requested : RawCodec → List Event → List String
requested codec [] = []
requested codec (agent_line line ∷ events) = requested codec events ++ requested_in codec line
requested codec (_ ∷ events) = requested codec events

abbrev pub accounted : {W : Type 0} → Phase × Pipe W → List String
accounted (phase, c) = answered c.out ++ unanswered phase

module _ {W : Type 0} (codec : RawCodec) (reports : Reports codec) where
  -- A state that accounts for the given requests over those that were answered.
  abbrev Accounts : Pipe W → List String → Phase × Pipe W → Type 0
  Accounts c ids next = accounted next ≡ answered c.out ++ ids

  local_or_forward-Accounts :
      (local : Option (LocalTools W × ToolCallParams)) (m : Message) (raw : String) (c : Pipe W)
      → Accounts c (id_string m ∷ []) (local_or_forward codec local m raw c)
  unfolding forward_request
  local_or_forward-Accounts none m raw c = refl
  local_or_forward-Accounts (some (tools, params)) m raw c =
      append-nil _ ∙ (run_local-Wrote codec tools m params c).answers reports

  handle_request-Accounts :
      (injected : Option (LocalTools W)) (m : Message) (raw : String) (c : Pipe W)
      → Accounts c (id_string m ∷ []) (handle_request codec injected m raw c)
  unfolding handle_request handle_tools_call forward_request
  handle_request-Accounts injected m raw c =
      both_branches (Accounts c (id_string m ∷ [])) (m.method == "tools/list") refl (
        both_branches (Accounts c (id_string m ∷ [])) (m.method == "tools/call")
          (local_or_forward-Accounts (local_call codec injected m) m raw c) refl)

  on_agent_message-Accounts :
      (injected : Option (LocalTools W)) (line : String) (m : Option Message) (c : Pipe W)
      → Accounts c (requested_by m) (on_agent_message codec injected line m c)
  unfolding route_agent_message
  on_agent_message-Accounts injected line none c = refl
  on_agent_message-Accounts injected line (some m) c = elim (Bool-cases (is_request m)) [
    | inl t ↦ rw t (handle_request-Accounts injected m line c)
    | inr f ↦ rw f refl
  ]

  on_agent_line-Accounts :
      (injected : Option (LocalTools W)) (line : String) (c : Pipe W)
      → Accounts c (requested_in codec line) (on_agent_line codec injected line c)
  unfolding on_agent_line
  on_agent_line-Accounts injected line c = elim (Bool-cases (line == "")) [
    | inl t ↦ rw t refl
    | inr f ↦ rw f (on_agent_message-Accounts injected line (codec.parse line) c)
  ]

  -- An upstream line answers nothing by itself.
  answered-on_upstream_message :
      (line : String) (m : Option Message) (c : Pipe W)
      → answered (on_upstream_message codec line m c).out ≡ answered c.out
  unfolding dispatch
  answered-on_upstream_message line none c = refl
  answered-on_upstream_message line (some m) c =
      both_branches {A = Pipe W} (λ c'. answered c'.out ≡ answered c.out)
        (is_response m && mentions (id_string m) c.pending) refl
        (answered-append c.out (relay line ∷ []) ∙ append-nil _)

  answered-on_upstream_line :
      (line : String) (c : Pipe W) → answered (on_upstream_line codec line c).out ≡ answered c.out
  unfolding on_upstream_line
  answered-on_upstream_line line c =
      both_branches {A = Pipe W} (λ c'. answered c'.out ≡ answered c.out) (line == "") refl
        (answered-on_upstream_message line (codec.parse line) c)

  answered-hand_over :
      (hand : Hand) (c : Pipe W) → answered (hand_over_from codec hand c).out ≡ answered c.out
  answered-hand_over free c = refl
  answered-hand_over (holds m) c = refl
  answered-hand_over (holds_stale m) c = refl

  Finished-accounted :
      (call : Call) (c : Pipe W) (next : Phase × Pipe W)
      → Finished codec call c next
      → accounted next ≡ answered c.out ++ (id_string call.request ∷ [])
  Finished-accounted call c next (returned w) = append-nil _ ∙ w.answers reports
  Finished-accounted call c next panics = refl

  module _ (injected : Option (LocalTools W)) where
    accounted_next :
        (phase : Phase) (c : Pipe W) (event : Event) (next : Phase × Pipe W) (events : List Event)
        → Step codec injected phase c event next
        → IsLinked (phase, c)
        → accounted (phase, c) ≡ requested codec events
        → accounted next ≡ requested codec (event ∷ events)
    unfolding hand_over
    accounted_next phase c event next events (reads {line}) h a =
        on_agent_line-Accounts injected line c
        ∙ ap (λ l. l ++ requested_in codec line) (sym (append-nil _) ∙ a)
    accounted_next phase c event next events sends h a = a
    accounted_next phase c event next events passes h a = a
    accounted_next phase c event next events cannot_pass h a = a
    accounted_next phase c event next events (cannot_send {call} {e}) h a =
        append-nil _ ∙ ((send_failed-Wrote codec call e c).answers reports ∙ a)
    accounted_next phase c event next events (hands_over live busy) h a =
        ap (λ l. l ++ unanswered phase) (answered-hand_over c.hand c) ∙ a
    accounted_next phase c event next events (hears {line = line} live idle) h a =
        ap (λ l. l ++ unanswered phase) (answered-on_upstream_line line c) ∙ a
    accounted_next phase c event next events (receives {call} {m} q) h a =
        let (_, _, same) = filled_inbox codec _ m c h q in
        Finished-accounted call _ _ (finish-Finished codec injected call m _ same) ∙ a
    accounted_next phase c event next events (gives_up {call}) h a =
        Finished-accounted call _ _ (time_out-Finished codec injected call c) ∙ a

    -- Where error responses can be marshalled, in every state that is reached the ids of the
    -- messages that the agent's side itself has written, followed by that of the request in hand if
    -- there is one, are those of the requests read, in the same order: for each request it writes
    -- one answer, an upstream response, a tool's result or an error. Lines of the upstream that are
    -- relayed as they are, such as a response that comes after the time limit, are not counted.
    pub reached-answered :
        (w : W) (events : List Event) (phase : Phase) (c : Pipe W)
        → Reached codec injected w events (phase, c)
        → answered c.out ++ unanswered phase ≡ requested codec events
    reached-answered w events phase c r = reached-accounted w events (phase, c) r
      where
        reached-accounted :
            (w : W) (events : List Event) (s : Phase × Pipe W)
            → Reached codec injected w events s
            → accounted s ≡ requested codec events
        reached-accounted w events s start = refl
        reached-accounted w events s (step r t) =
            accounted_next _ _ _ s _ t (reached-IsLinked codec injected w _ _ r)
              (reached-accounted w _ _ r)
