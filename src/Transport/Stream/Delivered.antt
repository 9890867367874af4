-- ===== src/Transport/Stream/Delivered.antt =====
-- The messages of an event stream arrive, each one once and in order.
use slack_mcp_extender.Base.{
  String, Char, ◌≡◌, refl, ap, subst, ◌∙◌, Bool, true, false, Option, List, [], ◌∷◌, ◌++◌,
  append-nil, append_assoc, has_prefix,
}
use Prim.Native.String.{[], ◌∷◌}
use slack_mcp_extender.Transport.Stream.{
  is_blank, starts_batch, trim_space, trim_left, drop_prefix, join_lines, Stream, dispatch_data,
  flush, on_line, consume,
}

abbrev d : Char
d = "d"

abbrev a : Char
a = "a"

abbrev t : Char
t = "t"

abbrev colon : Char
colon = ":"

abbrev space : Char
space = " "

-- "data: " and a message.
abbrev pub data_line : String → String
data_line m = d ∷ a ∷ t ∷ a ∷ colon ∷ space ∷ m

-- A message, and whether the server writes a type line before it.
abbrev pub Event : Type 0
Event = Bool × String

abbrev pub messages : List Event → List String
messages [] = []
messages ((typed, m) ∷ events) = m ∷ messages events

abbrev pub type_line : Bool → List String
type_line true = "event: message" ∷ []
type_line false = []

abbrev pub event_line : Event → List String
event_line (typed, m) = type_line typed ++ (data_line m ∷ [])

-- The events, each but the last one ended by a blank line, and the last one by that or by the end of
-- the stream.
abbrev pub event_lines : List Event → Bool → List String
event_lines [] ended = []
event_lines (event ∷ []) true = event_line event ++ ("" ∷ [])
event_lines (event ∷ []) false = event_line event
event_lines (event ∷ next ∷ events) ended =
    event_line event ++ ("" ∷ event_lines (next ∷ events) ended)

-- One message on one line, and no batch.
pub record IsSingle (m : String) : Type 0 where
  pub trimmed : trim_space m ≡ m
  pub filled : is_blank m ≡ false
  pub no_batch : starts_batch m ≡ false

abbrev pub AllSingle : List Event → Type 0
AllSingle [] = Unit
AllSingle ((typed, m) ∷ events) = IsSingle m × AllSingle events

abbrev pub idle : List String → Stream
idle queued = record { event_type = ""; data_lines = []; incoming = queued }

module _ (array_of : String → Option (List String)) where
  data_of_line : (m : String) → IsSingle m → trim_space (space ∷ m) ≡ m
  unfolding trim_left
  data_of_line m s = s.trimmed

  dispatch_data_single : (m : String) → IsSingle m → dispatch_data array_of m ≡ m ∷ []
  unfolding dispatch_data
  dispatch_data_single m s = rw (s.trimmed, s.filled, s.no_batch) refl

  abbrev type_of : Bool → String
  type_of true = "message"
  type_of false = ""

  -- An event that has been read up to its end.
  abbrev holding : Bool → String → List String → Stream
  holding typed m queued = record {
    event_type = type_of typed;
    data_lines = m ∷ [];
    incoming = queued;
  }

  flush_single :
      (typed : Bool) (m : String) (queued : List String)
      → IsSingle m
      → flush array_of (holding typed m queued) ≡ idle (queued ++ (m ∷ []))
  unfolding flush join_lines
  flush_single true m queued s = ap (λ l. idle (queued ++ l)) (dispatch_data_single m s)
  flush_single false m queued s = ap (λ l. idle (queued ++ l)) (dispatch_data_single m s)

  consume_lines :
      (typed : Bool) (m : String) (queued lines : List String)
      → IsSingle m
      → consume array_of (event_line (typed, m) ++ lines) (idle queued)
        ≡ consume array_of lines (holding typed m queued)
  unfolding consume on_line has_prefix drop_prefix trim_left
  consume_lines true m queued lines s =
      ap (λ text. consume array_of lines (holding true text queued)) (data_of_line m s)
  consume_lines false m queued lines s =
      ap (λ text. consume array_of lines (holding false text queued)) (data_of_line m s)

  consume_blank :
      (typed : Bool) (m : String) (queued lines : List String)
      → IsSingle m
      → consume array_of ("" ∷ lines) (holding typed m queued)
        ≡ consume array_of lines (idle (queued ++ (m ∷ [])))
  unfolding consume on_line
  consume_blank typed m queued lines s = ap (consume array_of lines) (flush_single typed m queued s)

  consume_end : (queued : List String) → consume array_of [] (idle queued) ≡ idle (queued ++ [])
  unfolding consume flush
  consume_end queued = refl

  consume_last :
      (typed : Bool) (m : String) (queued : List String)
      → IsSingle m
      → consume array_of [] (holding typed m queued) ≡ idle (queued ++ (m ∷ []))
  unfolding consume
  consume_last typed m queued s = flush_single typed m queued s

  -- The parser queues the messages of a stream, behind those that are queued, each one once and in
  -- order, where each stands on one data line without white space around it and is no batch, with or
  -- without a type line before it, and a blank line ends each event but the last, which the end of
  -- the stream may end instead.
  pub consume-event_lines :
      (events : List Event) (ended : Bool) (queued : List String)
      → AllSingle events
      → consume array_of (event_lines events ended) (idle queued) ≡ idle (queued ++ messages events)
  consume-event_lines [] ended queued all = consume_end queued
  consume-event_lines ((typed, m) ∷ []) true queued (s, _) =
      consume_lines typed m queued ("" ∷ []) s
      ∙ (consume_blank typed m queued [] s
          ∙ (consume_end (queued ++ (m ∷ [])) ∙ ap idle (append-nil (queued ++ (m ∷ [])))))
  consume-event_lines ((typed, m) ∷ []) false queued (s, _) =
      subst (λ l. consume array_of l (idle queued) ≡ idle (queued ++ (m ∷ [])))
        (append-nil (event_line (typed, m)))
        (consume_lines typed m queued [] s ∙ consume_last typed m queued s)
  consume-event_lines ((typed, m) ∷ next ∷ events) ended queued (s, all) =
      consume_lines typed m queued ("" ∷ event_lines (next ∷ events) ended) s
      ∙ (consume_blank typed m queued (event_lines (next ∷ events) ended) s
          ∙ (consume-event_lines (next ∷ events) ended (queued ++ (m ∷ [])) all
              ∙ ap idle (append_assoc queued (m ∷ []) (messages (next ∷ events)))))
