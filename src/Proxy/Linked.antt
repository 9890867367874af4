-- ===== src/Proxy/Linked.antt =====
-- The table of pending requests and the channel, in every state that is reached.
use slack_mcp_extender.Base.{
  String, ◌≡◌, refl, sym, ap, ◌∙◌, true, false, both_branches, split_test, Option, none, some, List,
  [], ◌∷◌, ◌==◌, eq_iff, arith,
}
use mathlib.Core.Option.{some-injective}
use slack_mcp_extender.Jsonrpc.{
  Message, RawCodec, ToolCallParams, id_string, is_response, is_request, mentions,
}
use slack_mcp_extender.Proxy.Pipe.{
  LocalTools, relay, Call, Phase, reading, sending, relaying, waiting, crashed, Output, Diagnostic,
  Hand, free, holds, holds_stale, Pipe,
}
use slack_mcp_extender.Proxy.Routing.{
  remove, call_of, put, outdated, hand_over_from, hand_over, forward_request, local_call,
  local_or_forward, handle_tools_call, handle_request, route_agent_message, on_agent_message,
  on_agent_line, dispatch, on_upstream_message, on_upstream_line,
}
use slack_mcp_extender.Proxy.Steps.{
  Event, Step, reads, sends, passes, cannot_send, cannot_pass, hears, hands_over, receives,
  gives_up, Reached, start, step,
}
use slack_mcp_extender.Proxy.Writes.{
  Finished, returned, panics, time_out-Finished, send_failed-Wrote, run_local-Wrote,
  finish-Finished,
}

-- No response for the last channel is in hand.
abbrev IsElsewhere : Hand → Type 0
IsElsewhere (holds m) = ⊥
IsElsewhere _ = Unit

-- The request's id is alone in the table; or the table is empty, and a response with that id is in
-- hand for the request's channel, or in that channel.
pub data Awaits {W : Type 0} (id : String) (c : Pipe W) : Type 0 where
  empty : c.pending ≡ id ∷ [] → c.inbox ≡ none → IsElsewhere c.hand → Awaits id c
  taken :
      {m : Message}
      → c.pending ≡ []
      → c.inbox ≡ none
      → c.hand ≡ holds m
      → is_response m ≡ true
      → id_string m ≡ id
      → Awaits id c
  filled :
      {m : Message}
      → c.pending ≡ []
      → c.inbox ≡ some m
      → IsElsewhere c.hand
      → is_response m ≡ true
      → id_string m ≡ id
      → Awaits id c

abbrev IsUnlisted : {W : Type 0} → Pipe W → Type 0
IsUnlisted c = c.pending ≡ []

-- Only a request that is forwarded stands in the table.
abbrev pub IsLinked : {W : Type 0} → Phase × Pipe W → Type 0
IsLinked (reading, c) = c.pending ≡ []
IsLinked (relaying, c) = c.pending ≡ []
IsLinked (sending call, c) = Awaits (id_string call.request) c
IsLinked (waiting call, c) = Awaits (id_string call.request) c
IsLinked (crashed call, c) = Unit

IsElsewhere-outdated : (hand : Hand) → IsElsewhere (outdated hand)
IsElsewhere-outdated free = tt
IsElsewhere-outdated (holds m) = tt
IsElsewhere-outdated (holds_stale m) = tt

module _ {W : Type 0} (codec : RawCodec) where
  forward_request-IsLinked :
      (call : Call) (c : Pipe W) → c.pending ≡ [] → IsLinked (forward_request codec call c)
  unfolding forward_request remove
  forward_request-IsLinked call c h =
      empty (ap (λ ids. id_string call.request ∷ remove (id_string call.request) ids) h) refl
        (IsElsewhere-outdated c.hand)

  local_or_forward-IsLinked :
      (local : Option (LocalTools W × ToolCallParams)) (m : Message) (raw : String) (c : Pipe W)
      → c.pending ≡ []
      → IsLinked (local_or_forward codec local m raw c)
  local_or_forward-IsLinked none m raw c h = forward_request-IsLinked (call_of m raw false) c h
  local_or_forward-IsLinked (some (tools, params)) m raw c h =
      (run_local-Wrote codec tools m params c).pending ∙ h

  route_agent_message-IsLinked :
      (injected : Option (LocalTools W)) (m : Message) (raw : String) (c : Pipe W)
      → c.pending ≡ []
      → IsLinked (route_agent_message codec injected m raw c)
  unfolding route_agent_message handle_request handle_tools_call
  route_agent_message-IsLinked injected m raw c h =
      both_branches IsLinked (is_request m)
        (both_branches IsLinked (m.method == "tools/list")
          (forward_request-IsLinked (call_of m raw true) c h)
          (both_branches IsLinked (m.method == "tools/call")
            (local_or_forward-IsLinked (local_call codec injected m) m raw c h)
            (forward_request-IsLinked (call_of m raw false) c h)))
        h

  on_agent_message-IsLinked :
      (injected : Option (LocalTools W)) (line : String) (m : Option Message) (c : Pipe W)
      → c.pending ≡ []
      → IsLinked (on_agent_message codec injected line m c)
  on_agent_message-IsLinked injected line none c h = h
  on_agent_message-IsLinked injected line (some m) c h =
      route_agent_message-IsLinked injected m line c h

  on_agent_line-IsLinked :
      (injected : Option (LocalTools W)) (line : String) (c : Pipe W)
      → c.pending ≡ []
      → IsLinked (on_agent_line codec injected line c)
  unfolding on_agent_line
  on_agent_line-IsLinked injected line c h =
      both_branches IsLinked (line == "") h
        (on_agent_message-IsLinked injected line (codec.parse line) c h)

  relayed-Awaits :
      (id line : String) (c : Pipe W) → Awaits id c → Awaits id (put codec (relay line) c)
  relayed-Awaits id line c (empty p q n) = empty p q n
  relayed-Awaits id line c (taken p q h r e) = taken p q h r e
  relayed-Awaits id line c (filled p q n r e) = filled p q n r e

  taken-Awaits :
      (id : String) (m : Message) (c : Pipe W)
      → Awaits id c
      → is_response m ≡ true
      → mentions (id_string m) c.pending ≡ true
      → Awaits id (record c { pending = remove (id_string m) c.pending; hand = holds m })
  unfolding remove
  taken-Awaits id m c (empty p q n) r listed =
      let same : id ≡ id_string m =
        let listed' : mentions (id_string m) (id ∷ []) ≡ true =
          ap (mentions (id_string m)) (sym p) ∙ listed in
        ground (arith, eq_iff id (id_string m)) in
      taken (ap (remove (id_string m)) p ∙ ground (arith, eq_iff id (id_string m))) q refl r
        (sym same)
  taken-Awaits id m c (taken p q h r e) _ listed =
      let no : mentions (id_string m) [] ≡ true = ap (mentions (id_string m)) (sym p) ∙ listed in cc
  taken-Awaits id m c (filled p q n r e) _ listed =
      let no : mentions (id_string m) [] ≡ true = ap (mentions (id_string m)) (sym p) ∙ listed in cc

  dispatch-Awaits :
      (id line : String) (m : Message) (c : Pipe W)
      → Awaits id c
      → Awaits id (dispatch codec line m c)
  unfolding dispatch
  dispatch-Awaits id line m c a =
      split_test (is_response m) (mentions (id_string m) c.pending) (Awaits id)
        (taken-Awaits id m c a) (relayed-Awaits id line c a)

  -- Where the table is empty, an upstream line of any kind goes to the agent.
  dispatch_unlisted :
      (line : String) (m : Message) (c : Pipe W)
      → c.pending ≡ []
      → (dispatch codec line m c).pending ≡ []
  unfolding dispatch
  dispatch_unlisted line m c h =
      split_test (is_response m) (mentions (id_string m) c.pending) IsUnlisted
        (λ r listed.
          let no : mentions (id_string m) [] ≡ true =
            ap (mentions (id_string m)) (sym h) ∙ listed in
          cc)
        h

  on_upstream_line-Awaits :
      (id line : String) (c : Pipe W) → Awaits id c → Awaits id (on_upstream_line codec line c)
  unfolding on_upstream_line
  on_upstream_line-Awaits id line c a =
      both_branches (Awaits id) (line == "") a (on_message (codec.parse line))
    where
      on_message : (m : Option Message) → Awaits id (on_upstream_message codec line m c)
      on_message none = elim a [
        | empty p q n ↦ empty p q n
        | taken p q h r e ↦ taken p q h r e
        | filled p q n r e ↦ filled p q n r e
      ]
      on_message (some m) = dispatch-Awaits id line m c a

  on_upstream_line_unlisted :
      (line : String) (c : Pipe W) → c.pending ≡ [] → (on_upstream_line codec line c).pending ≡ []
  unfolding on_upstream_line
  on_upstream_line_unlisted line c h =
      both_branches IsUnlisted (line == "") h (on_message (codec.parse line))
    where
      on_message : (m : Option Message) → (on_upstream_message codec line m c).pending ≡ []
      on_message none = h
      on_message (some m) = dispatch_unlisted line m c h

  on_upstream_line-IsLinked :
      (phase : Phase) (line : String) (c : Pipe W)
      → IsLinked (phase, c)
      → IsLinked (phase, on_upstream_line codec line c)
  on_upstream_line-IsLinked reading line c h = on_upstream_line_unlisted line c h
  on_upstream_line-IsLinked relaying line c h = on_upstream_line_unlisted line c h
  on_upstream_line-IsLinked (sending call) line c h = on_upstream_line-Awaits _ line c h
  on_upstream_line-IsLinked (waiting call) line c h = on_upstream_line-Awaits _ line c h
  on_upstream_line-IsLinked (crashed call) line c h = tt

  module _ (id : String) (p : List String) (w : W) (sent : List String) (out : List Output)
      (logged : List Diagnostic) where
    abbrev pipe_with : Hand → Option Message → Pipe W
    pipe_with hand inbox = record {
      pending = p;
      hand = hand;
      inbox = inbox;
      world = w;
      sent = sent;
      out = out;
      logged = logged;
    }

    hand_over_from-Awaits :
        (hand : Hand) (inbox : Option Message)
        → Awaits id (pipe_with hand inbox)
        → Awaits id (hand_over_from codec hand (pipe_with hand inbox))
    hand_over_from-Awaits free inbox a = a
    hand_over_from-Awaits (holds m) inbox (empty p q n) = absurd n
    hand_over_from-Awaits (holds m) inbox (taken {m = m'} p q h r e) =
        let same : m' ≡ m = ground arith in
        filled p refl tt (ap is_response (sym same) ∙ r) (ap id_string (sym same) ∙ e)
    hand_over_from-Awaits (holds m) inbox (filled p q n r e) = absurd n
    hand_over_from-Awaits (holds_stale m) inbox (empty p q n) = empty p q tt
    hand_over_from-Awaits (holds_stale m) inbox (taken {m = m'} p q h r e) =
        let no : holds_stale m ≡ holds m' = h in cc
    hand_over_from-Awaits (holds_stale m) inbox (filled p q n r e) = filled p q tt r e

  hand_over-Awaits : (id : String) (c : Pipe W) → Awaits id c → Awaits id (hand_over codec c)
  unfolding hand_over
  hand_over-Awaits id c a =
      hand_over_from-Awaits id c.pending c.world c.sent c.out c.logged c.hand c.inbox a

  pending-hand_over_from :
      (hand : Hand) (c : Pipe W) → (hand_over_from codec hand c).pending ≡ c.pending
  pending-hand_over_from free c = refl
  pending-hand_over_from (holds m) c = refl
  pending-hand_over_from (holds_stale m) c = refl

  hand_over-IsLinked :
      (phase : Phase) (c : Pipe W) → IsLinked (phase, c) → IsLinked (phase, hand_over codec c)
  unfolding hand_over
  hand_over-IsLinked reading c h = pending-hand_over_from c.hand c ∙ h
  hand_over-IsLinked relaying c h = pending-hand_over_from c.hand c ∙ h
  hand_over-IsLinked (sending call) c h = hand_over-Awaits _ c h
  hand_over-IsLinked (waiting call) c h = hand_over-Awaits _ c h
  hand_over-IsLinked (crashed call) c h = tt

  -- An id is taken out of the table whether its response has come or not.
  remove-Awaits : (id : String) (c : Pipe W) → Awaits id c → remove id c.pending ≡ []
  unfolding remove
  remove-Awaits id c (empty p q n) = ap (remove id) p ∙ ground (arith, eq_iff id id)
  remove-Awaits id c (taken p q h r e) = ap (remove id) p
  remove-Awaits id c (filled p q n r e) = ap (remove id) p

  pub filled_inbox :
      (id : String) (m : Message) (c : Pipe W)
      → Awaits id c
      → c.inbox ≡ some m
      → (c.pending ≡ []) × (is_response m ≡ true) × (id_string m ≡ id)
  filled_inbox id m c (empty p q n) h =
      let no : ◌≡◌ {A = Option Message} none (some m) = sym q ∙ h in cc
  filled_inbox id m c (taken p q k r e) h =
      let no : ◌≡◌ {A = Option Message} none (some m) = sym q ∙ h in cc
  filled_inbox id m c (filled {m = m'} p q n r e) h =
      let same : m' ≡ m = some-injective m' m (sym q ∙ h) in
      (p, ap is_response (sym same) ∙ r, ap id_string (sym same) ∙ e)

  Finished-IsLinked :
      (call : Call) (c : Pipe W) (next : Phase × Pipe W)
      → Finished codec call c next
      → c.pending ≡ []
      → IsLinked next
  Finished-IsLinked call c next (returned w) h = w.pending ∙ h
  Finished-IsLinked call c next panics h = tt

  module _ (injected : Option (LocalTools W)) where
    next-IsLinked :
        (phase : Phase) (c : Pipe W) (event : Event) (next : Phase × Pipe W)
        → Step codec injected phase c event next
        → IsLinked (phase, c)
        → IsLinked next
    next-IsLinked phase c event next reads h = on_agent_line-IsLinked injected _ c h
    next-IsLinked phase c event next sends h = h
    next-IsLinked phase c event next passes h = h
    next-IsLinked phase c event next cannot_pass h = h
    next-IsLinked phase c event next (cannot_send {call} {e}) h =
        (send_failed-Wrote codec call e c).pending ∙ remove-Awaits _ c h
    next-IsLinked phase c event next (hands_over live busy) h = hand_over-IsLinked phase c h
    next-IsLinked phase c event next (hears live idle) h = on_upstream_line-IsLinked phase _ c h
    next-IsLinked phase c event next (receives {call} {m} q) h =
        let (unlisted, _, same) = filled_inbox _ m c h q in
        Finished-IsLinked call _ _ (finish-Finished codec injected call m _ same) unlisted
    next-IsLinked phase c event next (gives_up {call}) h =
        Finished-IsLinked call _ _ (time_out-Finished codec injected call c) (remove-Awaits _ c h)

    -- In every state that is reached the table of pending requests is empty while the agent's side
    -- reads or passes a message on, and while it sends or waits either the table has just the
    -- request's id and its channel is empty; or the table is empty and a response with that id is
    -- in the upstream's side's hand, for the request's channel, which is empty; or the table is
    -- empty and the channel has a response with that id, and no other response for it is in hand.
    pub reached-IsLinked :
        (w : W) (events : List Event) (s : Phase × Pipe W)
        → Reached codec injected w events s
        → IsLinked s
    reached-IsLinked w events s start = refl
    reached-IsLinked w events s (step r t) = next-IsLinked _ _ _ s t (reached-IsLinked w _ _ r)
