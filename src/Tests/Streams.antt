-- ===== src/Tests/Streams.antt =====
-- An event stream of two messages, the second without a type line and ended by the end of the stream.
use slack_mcp_extender.Base.{◌≡◌, refl, true, false, none, List, [], ◌∷◌, ◌++◌}
use slack_mcp_extender.Transport.Stream.{consume, trim_left, trim_right}
use slack_mcp_extender.Transport.Stream.Delivered.{
  Event, messages, AllSingle, event_lines, idle, consume-event_lines,
}

abbrev two : List Event
two = (true, "{\"id\":1}") ∷ (false, "{\"id\":2}") ∷ []

two_lines :
    event_lines two false ≡ "event: message" ∷ "data: {\"id\":1}" ∷ "" ∷ "data: {\"id\":2}" ∷ []
two_lines = refl

two-AllSingle : AllSingle two
unfolding trim_left trim_right
two-AllSingle = (
  record { trimmed = refl; filled = refl; no_batch = refl },
  (record { trimmed = refl; filled = refl; no_batch = refl }, tt),
)

consume-event_lines_example :
    consume (λ text. none) (event_lines two false) (idle ("0" ∷ []))
    ≡ idle (("0" ∷ []) ++ messages two)
consume-event_lines_example = consume-event_lines (λ text. none) two false ("0" ∷ []) two-AllSingle
