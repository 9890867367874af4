-- ===== src/Proxy/Forwarded.antt =====
-- The lines that go upstream.
use slack_mcp_extender.Base.{
  String, ◌≡◌, refl, sym, ap, arith, eq_iff, ◌∙◌, true, false, ◌&&◌, Bool-cases, inl, inr,
  both_branches, Option, none, some, List, [], ◌∷◌, ◌++◌, append-nil, if◌then◌else◌, ◌==◌,
}
use slack_mcp_extender.Jsonrpc.{
  Message, RawCodec, ToolCallParams, id_string, is_response, is_request, mentions,
}
use slack_mcp_extender.Proxy.Pipe.{LocalTools, Call, Phase, Hand, free, holds, holds_stale, Pipe}
use slack_mcp_extender.Proxy.Routing.{
  hand_over_from, hand_over, forward_request, local_call, local_or_forward, handle_tools_call,
  handle_request, route_agent_message, on_agent_message, on_agent_line, dispatch,
  on_upstream_message, on_upstream_line,
}
use slack_mcp_extender.Proxy.Steps.{
  Event, agent_line, Step, reads, sends, passes, cannot_send, cannot_pass, hears, hands_over,
  receives, gives_up, Reached, start, step,
}
use slack_mcp_extender.Proxy.Writes.{
  Finished, returned, panics, run_local-Wrote, finish-Finished, time_out-Finished,
  send_failed-Wrote,
}
use slack_mcp_extender.Proxy.Linked.{IsLinked, reached-IsLinked, filled_inbox}

module _ {W : Type 0} (codec : RawCodec) (injected : Option (LocalTools W)) where
  -- A line of the agent goes upstream unless it is empty, does not parse, or is a request that calls
  -- an injected tool.
  abbrev unless_local : Option (LocalTools W × ToolCallParams) → String → List String
  unless_local none line = line ∷ []
  unless_local (some call) line = []

  abbrev forwarded_message : String → Option Message → List String
  forwarded_message line none = []
  forwarded_message line (some m) =
      if is_request m && m.method == "tools/call"
      then unless_local (local_call codec injected m) line
      else line ∷ []

  abbrev pub forwarded_line : String → List String
  forwarded_line line = if line == "" then [] else forwarded_message line (codec.parse line)

  abbrev pub forwarded : List Event → List String
  forwarded [] = []
  forwarded (agent_line line ∷ events) = forwarded events ++ forwarded_line line
  forwarded (_ ∷ events) = forwarded events

  abbrev Sends : Pipe W → List String → Phase × Pipe W → Type 0
  Sends c lines next = next.1.sent ≡ c.sent ++ lines

  local_or_forward-Sends :
      (local : Option (LocalTools W × ToolCallParams)) (m : Message) (raw : String) (c : Pipe W)
      → Sends c (unless_local local raw) (local_or_forward codec local m raw c)
  unfolding forward_request
  local_or_forward-Sends none m raw c = refl
  local_or_forward-Sends (some (tools, params)) m raw c =
      (run_local-Wrote codec tools m params c).sent ∙ sym (append-nil _)

  -- The method of a tools/list is not that of a tools/call.
  not_call : (method : String) → (method == "tools/list") ≡ true → (method == "tools/call") ≡ false
  not_call method t =
      let e : method ≡ "tools/list" = ground (arith, eq_iff method "tools/list") in rw e refl

  handle_request-Sends :
      (m : Message) (raw : String) (c : Pipe W)
      → Sends c
          (if m.method == "tools/call"
            then unless_local (local_call codec injected m) raw
            else raw ∷ [])
          (handle_request codec injected m raw c)
  unfolding handle_request handle_tools_call forward_request
  handle_request-Sends m raw c = elim (Bool-cases (m.method == "tools/list")) [
    | inl t ↦ rw (t, not_call m.method t) refl
    | inr f ↦ rw f (elim (Bool-cases (m.method == "tools/call")) [
      | inl t ↦ rw t (local_or_forward-Sends (local_call codec injected m) m raw c)
      | inr g ↦ rw g refl
    ])
  ]

  route_agent_message-Sends :
      (m : Message) (raw : String) (c : Pipe W)
      → Sends c (forwarded_message raw (some m)) (route_agent_message codec injected m raw c)
  unfolding route_agent_message
  route_agent_message-Sends m raw c = elim (Bool-cases (is_request m)) [
    | inl t ↦ rw t (handle_request-Sends m raw c)
    | inr f ↦ rw f refl
  ]

  on_agent_message-Sends :
      (line : String) (m : Option Message) (c : Pipe W)
      → Sends c (forwarded_message line m) (on_agent_message codec injected line m c)
  on_agent_message-Sends line none c = sym (append-nil _)
  on_agent_message-Sends line (some m) c = route_agent_message-Sends m line c

  on_agent_line-Sends :
      (line : String) (c : Pipe W)
      → Sends c (forwarded_line line) (on_agent_line codec injected line c)
  unfolding on_agent_line
  on_agent_line-Sends line c = elim (Bool-cases (line == "")) [
    | inl t ↦ rw t (sym (append-nil _))
    | inr f ↦ rw f (on_agent_message-Sends line (codec.parse line) c)
  ]

  sent-on_upstream_message :
      (line : String) (m : Option Message) (c : Pipe W)
      → (on_upstream_message codec line m c).sent ≡ c.sent
  unfolding dispatch
  sent-on_upstream_message line none c = refl
  sent-on_upstream_message line (some m) c =
      both_branches {A = Pipe W} (λ c'. c'.sent ≡ c.sent)
        (is_response m && mentions (id_string m) c.pending) refl refl

  sent-on_upstream_line :
      (line : String) (c : Pipe W) → (on_upstream_line codec line c).sent ≡ c.sent
  unfolding on_upstream_line
  sent-on_upstream_line line c =
      both_branches {A = Pipe W} (λ c'. c'.sent ≡ c.sent) (line == "") refl
        (sent-on_upstream_message line (codec.parse line) c)

  sent-hand_over : (hand : Hand) (c : Pipe W) → (hand_over_from codec hand c).sent ≡ c.sent
  sent-hand_over free c = refl
  sent-hand_over (holds m) c = refl
  sent-hand_over (holds_stale m) c = refl

  Finished-sent :
      (call : Call) (c : Pipe W) (next : Phase × Pipe W)
      → Finished codec call c next
      → next.1.sent ≡ c.sent
  Finished-sent call c next (returned w) = w.sent
  Finished-sent call c next panics = refl

  sent_next :
      (phase : Phase) (c : Pipe W) (event : Event) (next : Phase × Pipe W) (events : List Event)
      → Step codec injected phase c event next
      → IsLinked (phase, c)
      → c.sent ≡ forwarded events
      → next.1.sent ≡ forwarded (event ∷ events)
  unfolding hand_over
  sent_next phase c event next events (reads {line}) h s =
      on_agent_line-Sends line c ∙ ap (λ l. l ++ forwarded_line line) s
  sent_next phase c event next events sends h s = s
  sent_next phase c event next events passes h s = s
  sent_next phase c event next events cannot_pass h s = s
  sent_next phase c event next events (cannot_send {call} {e}) h s =
      (send_failed-Wrote codec call e c).sent ∙ s
  sent_next phase c event next events (hands_over live busy) h s = sent-hand_over c.hand c ∙ s
  sent_next phase c event next events (hears {line = line} live idle) h s =
      sent-on_upstream_line line c ∙ s
  sent_next phase c event next events (receives {call} {m} q) h s =
      let (_, _, same) = filled_inbox codec _ m c h q in
      Finished-sent call _ _ (finish-Finished codec injected call m _ same) ∙ s
  sent_next phase c event next events (gives_up {call}) h s =
      Finished-sent call _ _ (time_out-Finished codec injected call c) ∙ s

  -- In every state that is reached, the lines handed to the upstream are those of the agent, as they
  -- were read and in their order, without the empty ones, those that do not parse, and the requests
  -- that call an injected tool.
  pub reached-forwarded :
      (w : W) (events : List Event) (s : Phase × Pipe W)
      → Reached codec injected w events s
      → s.1.sent ≡ forwarded events
  reached-forwarded w events s start = refl
  reached-forwarded w events s (step r t) =
      sent_next _ _ _ s _ t (reached-IsLinked codec injected w _ _ r) (reached-forwarded w _ _ r)
