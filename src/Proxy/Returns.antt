-- ===== src/Proxy/Returns.antt =====
-- The agent's side comes back to reading, whatever the upstream sends in between.
use slack_mcp_extender.Base.{
  ℕ, String, ◌+◌, ◌≤◌, ◌≡◌, refl, ap, subst, both_branches, Option, none, some, List, [], ◌∷◌, ◌++◌,
  All, arith,
}
use slack_mcp_extender.Jsonrpc.{
  Message, RpcError, RawCodec, Merge, merged, failed, panicked, id_string, new_error_response,
  merge_tools_list_result,
}
use slack_mcp_extender.Proxy.Pipe.{
  LocalTools, Call, Phase, reading, sending, relaying, waiting, crashed, Pipe,
}
use slack_mcp_extender.Proxy.Routing.{
  failure, write_message, after_merge, merge_response, finish, time_out,
}
use slack_mcp_extender.Proxy.Steps.{
  Event, agent_line, send_returned, send_error, response_received, timer_fired, Live, Step, reads,
  sends, passes, cannot_send, cannot_pass, hears, hands_over, receives, gives_up,
}
use slack_mcp_extender.Proxy.Writes.{answered, Reports, write_message-Wrote, unlist}

-- A step of the agent's side counts, and reading a further line of the agent is not one of these.
abbrev pub own : Event → ℕ
own send_returned = 1
own (send_error e) = 1
own response_received = 1
own timer_fired = 1
own _ = 0

abbrev pub IsUnread : Event → Type 0
IsUnread (agent_line line) = ⊥
IsUnread _ = Unit

abbrev pub own_steps : List Event → ℕ
own_steps [] = 0
own_steps (event ∷ events) = own event + own_steps events

-- How many steps the agent's side is from reading, at most.
abbrev pub rank : Phase → ℕ
rank reading = 0
rank relaying = 1
rank (sending call) = 2
rank (waiting call) = 1
rank (crashed call) = 0

module _ {W : Type 0} (codec : RawCodec) (injected : Option (LocalTools W)) where
  -- Steps one after the other, with their events.
  pub data Leads : Phase × Pipe W → List Event → Phase × Pipe W → Type 0 where
    done : {s : Phase × Pipe W} → Leads s [] s
    and_then :
        {phase : Phase} {c : Pipe W} {event : Event} {next last : Phase × Pipe W}
        {events : List Event}
        → Step codec injected phase c event next
        → Leads next events last
        → Leads (phase, c) (event ∷ events) last

  merge_response-error :
      (tools : Option (LocalTools W)) (call : Call) (m : Message) (e : RpcError) (c : Pipe W)
      → merge_response codec tools call m none (some e) c
        ≡ (reading, write_message codec call.request.id m c)
  merge_response-error none call m e c = refl
  merge_response-error (some tools) call m e c = refl

  abbrev timed_out : Call → Message
  timed_out call = failure call.request.id "upstream timeout"

  time_out-returns :
      (call : Call) (c : Pipe W)
      → time_out codec injected call c
        ≡ (reading, write_message codec call.request.id (timed_out call) (unlist codec call c))
  unfolding time_out finish new_error_response
  time_out-returns call c =
      both_branches
        (λ o.
          o ≡ (reading, write_message codec call.request.id (timed_out call) (unlist codec call c)))
        call.listing (merge_response-error injected call (timed_out call) _ (unlist codec call c))
        refl

  -- What the agent's side can do next by itself: nothing is left, the return of Send is taken, or the
  -- timer ends the request with an answer.
  pub data Onward : Phase → Pipe W → Type 0 where
    is_reading : {c : Pipe W} → Onward reading c
    is_passed :
        {c : Pipe W} → Step codec injected relaying c send_returned (reading, c) → Onward relaying c
    is_sent :
        {call : Call} {c : Pipe W}
        → Step codec injected (sending call) c send_returned (waiting call, c)
        → Onward (sending call) c
    is_timed :
        {call : Call} {c : Pipe W} (after : Pipe W)
        → Step codec injected (waiting call) c timer_fired (reading, after)
        → (Reports codec → answered after.out ≡ answered c.out ++ (id_string call.request ∷ []))
        → Onward (waiting call) c

  waiting-Onward : (call : Call) (c : Pipe W) → Onward (waiting call) c
  unfolding new_error_response
  waiting-Onward call c =
      is_timed (write_message codec call.request.id (timed_out call) (unlist codec call c))
        (subst (λ s. Step codec injected (waiting call) c timer_fired s) (time_out-returns call c)
          gives_up)
        (write_message-Wrote codec call.request.id (timed_out call) (unlist codec call c)
          refl).answers

  Live-Onward : (phase : Phase) (c : Pipe W) → Live phase → Onward phase c
  Live-Onward reading c live = is_reading
  Live-Onward relaying c live = is_passed passes
  Live-Onward (sending call) c live = is_sent sends
  Live-Onward (waiting call) c live = waiting-Onward call c
  Live-Onward (crashed call) c live = absurd live

  -- A state that is reading or has panicked.
  abbrev AtEnd : Phase × Pipe W → Type 0
  AtEnd s = rank s.0 ≡ 0

  after_merge-AtEnd :
      (call : Call) (m : Message) (merge : Merge) (c : Pipe W)
      → AtEnd (after_merge codec call m merge c)
  after_merge-AtEnd call m (merged out found) c = refl
  after_merge-AtEnd call m failed c = refl
  after_merge-AtEnd call m panicked c = refl

  merge_response-AtEnd :
      (tools : Option (LocalTools W)) (call : Call) (m : Message) (result : Option String)
      (error : Option RpcError) (c : Pipe W)
      → AtEnd (merge_response codec tools call m result error c)
  merge_response-AtEnd (some tools) call m (some result) none c =
      after_merge-AtEnd call m (merge_tools_list_result codec result tools.definitions) c
  merge_response-AtEnd (some tools) call m (some result) (some e) c = refl
  merge_response-AtEnd (some tools) call m none error c = refl
  merge_response-AtEnd none call m result error c = refl

  finish-AtEnd : (call : Call) (m : Message) (c : Pipe W) → AtEnd (finish codec injected call m c)
  unfolding finish
  finish-AtEnd call m c =
      both_branches AtEnd call.listing (merge_response-AtEnd injected call m m.result m.error c)
        refl

  own-rank :
      (phase : Phase) (c : Pipe W) (event : Event) (next : Phase × Pipe W)
      → Step codec injected phase c event next
      → IsUnread event
      → own event + rank next.0 ≤ rank phase
  own-rank phase c event next reads u = absurd u
  own-rank phase c event next sends u = omega arith
  own-rank phase c event next passes u = omega arith
  own-rank phase c event next cannot_send u = omega arith
  own-rank phase c event next cannot_pass u = omega arith
  own-rank phase c event next (hears live idle) u = omega arith
  own-rank phase c event next (hands_over live busy) u = omega arith
  own-rank phase c event next (receives {call} {m} q) u =
      rw (finish-AtEnd call m (record c { inbox = none })) (omega arith)
  own-rank phase c event next (gives_up {call}) u =
      rw (ap (λ s. rank s.0) (time_out-returns call c)) (omega arith)

  own_steps-rank :
      (s last : Phase × Pipe W) (events : List Event)
      → Leads s events last
      → All IsUnread events
      → own_steps events + rank last.0 ≤ rank s.0
  own_steps-rank s last events done unread = omega arith
  own_steps-rank s last (event ∷ events) (and_then {phase} {c} {next = next} t more) (u, unread) =
      omega (arith, own-rank phase c event next t u, own_steps-rank next last events more unread)

  -- In a run in which the agent's side reads no further line, however many lines the upstream sends
  -- and wherever they come in between, the agent's side takes no more steps of its own than its
  -- distance from reading, two while it sends and one while it waits or passes a message on, less
  -- that where the run stops. And where it stops, unless the merge has panicked, the agent's side
  -- is reading; or the return of Send takes it on; or the timer can fire, and takes it to reading
  -- with, where error responses can be marshalled, one answer more, to the request in hand.
  pub Leads-Onward :
      (phase : Phase) (c : Pipe W) (events : List Event) (phase' : Phase) (c' : Pipe W)
      → Leads (phase, c) events (phase', c')
      → All IsUnread events
      → (own_steps events + rank phase' ≤ rank phase) × (Live phase' → Onward phase' c')
  Leads-Onward phase c events phase' c' run unread =
      (own_steps-rank (phase, c) (phase', c') events run unread, Live-Onward phase' c')
